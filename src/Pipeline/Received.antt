-- ===== src/Pipeline/Received.antt =====
-- What the report says of received frames that are numbered from 1.
use low_latency_data_transfe.Base.{
  ℕ, ◌+◌, ◌^◌, ◌≤◌, ◌<◌, ◌≡◌, sym, ◌∙◌, List, [], ◌∷◌, arith, inl, inr, length,
}
use low_latency_data_transfe.Bytes.{load_field}
use low_latency_data_transfe.Message.{Profile}
use low_latency_data_transfe.Metrics.{Accumulator, Floating, report}
use low_latency_data_transfe.Metrics.Accumulated.{IsAccumulated, AllWithin, Occurs}
use low_latency_data_transfe.Metrics.Percentiles.{IsFloating}
use low_latency_data_transfe.Metrics.Reported.{report-IsReport}
use low_latency_data_transfe.Producer.Published.{Numbered}
use low_latency_data_transfe.Consumer.Course.{sample_of, frames_of, samples_of, length-samples_of}

module _ (p : Profile) (at_front : (f : List ℕ) → p.seq_id f ≡ load_field 0 8 f) where
  sample_of-seq_id : (now : ℕ) (f : List ℕ) → (sample_of f now).seq_id ≡ p.seq_id f
  sample_of-seq_id now f = sym (at_front f)

  -- A number of the samples is one of the frames'.
  Occurs-samples :
      (n j : ℕ) (got : List (List ℕ × ℕ))
      → Numbered p j (frames_of got)
      → Occurs n (samples_of got)
      → (j + 1 ≤ n) × (n ≤ j + length got)
  Occurs-samples n j [] all h = absurd h
  Occurs-samples n j ((f, now) ∷ got) (whole, seq, rest) (inl e) =
      let same = sample_of-seq_id now f in
      (omega (arith, e, seq, same), omega (arith, e, seq, same))
  Occurs-samples n j ((f, now) ∷ got) (whole, seq, rest) (inr h) =
      let (low, high) = Occurs-samples n (j + 1) got rest h in
      (omega (arith, low), omega (arith, high))

  -- A range of the samples' numbers has the first and the last frame's.
  AllWithin-samples :
      (low high j : ℕ) (got : List (List ℕ × ℕ))
      → Numbered p j (frames_of got)
      → AllWithin low high (samples_of got)
      → 0 < length got
      → (low ≤ j + 1) × (j + length got ≤ high)
  AllWithin-samples low high j [] all within pos = absurd (omega arith)
  AllWithin-samples low high j ((f, now) ∷ []) (whole, seq, rest) within pos =
      let same = sample_of-seq_id now f in
      (omega (arith, within.0, seq, same), omega (arith, within.1, seq, same))
  AllWithin-samples low high j ((f, now) ∷ (g ∷ got)) (whole, seq, rest) within pos =
      let same = sample_of-seq_id now f in
      let (first, last) =
        AllWithin-samples low high (j + 1) (g ∷ got) rest within.2 (omega arith) in
      (omega (arith, within.0, seq, same), omega (arith, last))

  -- The report on all frames of a ring that are numbered from 1.
  pub report-all :
      (d : Floating) (capacity : ℕ) (got : List (List ℕ × ℕ)) (a : Accumulator)
      → IsFloating d
      → Numbered p 0 (frames_of got)
      → 0 < length got
      → length got ≤ capacity
      → capacity < 2 ^ 53
      → IsAccumulated capacity (samples_of got) a
      → ((report d a).received ≡ length got)
        × ((report d a).expected ≡ length got)
        × ((report d a).dropped ≡ 0)
        × (a.overflow ≡ 0)
  report-all d capacity got a floating all pos room most v =
      let long = length-samples_of got in
      let (low, high) = AllWithin-samples a.first_seq a.last_seq 0 got all v.within pos in
      let first = Occurs-samples _ 0 got all (v.first (omega (arith, long))) in
      let last = Occurs-samples _ 0 got all (v.last (omega (arith, long))) in
      let r =
        report-IsReport capacity (samples_of got) a v d floating (omega (arith, long))
          (omega (arith, long)) (omega (arith, last.1)) (omega arith) most in
      let expected = r.expected in
      (
        r.received ∙ long,
        omega (arith, low, high, first, last, expected),
        omega (arith, low, high, first, last, expected, r.dropped, long),
        omega (arith, v.overflow, long),
      )
