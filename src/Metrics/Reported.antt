-- ===== src/Metrics/Reported.antt =====
-- What `Accumulator::report` of harness/include/metrics.h says of the samples recorded.
use low_latency_data_transfe.Base.{
  ℕ, zero, suc, ◌+◌, ◌-◌, ◌^◌, ◌≤◌, ◌<◌, ◌≡◌, ap, List, [], ◌∷◌, arith, length, take, inl, inr,
  Bool-cases, refl, ◌==◌,
}
use low_latency_data_transfe.Metrics.{
  Sample, Accumulator, Report, Floating, latencies, statistics, count_report, report,
}
use low_latency_data_transfe.Metrics.Accumulated.{IsAccumulated, AllWithin}
use low_latency_data_transfe.Metrics.Percentiles.{IsFloating, IsStatistics, statistics-IsStatistics}

-- The counts of a nonempty history, and the statistics of the samples that were stored.
pub record IsReport (capacity : ℕ) (history : List Sample) (a : Accumulator) (r : Report)
    : Type 0 where
  pub received : r.received ≡ length history
  pub expected : r.expected + a.first_seq ≡ a.last_seq + 1
  pub dropped : r.dropped ≡ r.expected - length history
  pub overflow : r.overflow ≡ length history - capacity
  pub statistics : IsStatistics (latencies (take capacity history)) r

length-latencies : (ss : List Sample) → length (latencies ss) ≡ length ss
length-latencies [] = refl
length-latencies (s ∷ ss) = ap suc (length-latencies ss)

take-pos : (n : ℕ) (ss : List Sample) → 0 < n → 0 < length ss → 0 < length (take n ss)
take-pos zero ss room pos = absurd (omega arith)
take-pos (suc n) [] room pos = absurd (omega arith)
take-pos (suc n) (s ∷ ss) room pos = omega arith

length-take_le : (n : ℕ) (ss : List Sample) → length (take n ss) ≤ n
length-take_le zero ss = omega arith
length-take_le (suc n) [] = omega arith
length-take_le (suc n) (s ∷ ss) = omega (arith, length-take_le n ss)

module _ (capacity : ℕ) (history : List Sample) (a : Accumulator)
    (v : IsAccumulated capacity history a) where
  within-le : 0 < length history → a.first_seq ≤ a.last_seq
  within-le pos = go history pos v.within
    where
      go :
          (ss : List Sample)
          → 0 < length ss
          → AllWithin a.first_seq a.last_seq ss
          → a.first_seq ≤ a.last_seq
      go [] none all = absurd (omega arith)
      go (t ∷ ts) some_sample all = omega (arith, all.0, all.1)

  -- A record of some sample is stored, so the report has statistics.
  report-statistics :
      (d : Floating)
      → 0 < length history
      → 0 < capacity
      → length history < 2 ^ 64
      → report d a ≡ statistics d (count_report d a) a.samples
  unfolding report
  report-statistics d pos room small = elim (Bool-cases (a.received == 0)) [
    | inl none ↦ absurd (ground (arith, none, v.received))
    | inr received ↦ elim (Bool-cases (length a.samples == 0)) [
      | inl empty ↦
          absurd (ground (arith, empty, ap length v.samples, take-pos capacity history room pos))
      | inr stored ↦ simp (received, stored) refl
    ]
  ]

  counts :
      (d : Floating)
      → 0 < length history
      → length history < 2 ^ 64
      → a.last_seq + 1 < 2 ^ 64
      → ((count_report d a).received ≡ length history)
        × ((count_report d a).expected + a.first_seq ≡ a.last_seq + 1)
        × ((count_report d a).dropped ≡ (count_report d a).expected - length history)
        × ((count_report d a).overflow ≡ length history - capacity)
  unfolding count_report
  counts d pos small wide =
      let received = v.received in
      let overflow = v.overflow in
      let le = within-le pos in (ground arith, ground arith, ground arith, ground arith)

  -- The report of a nonempty sequence of samples expects every number from the least to the
  -- largest recorded, calls dropped as many as exceed the samples received, and gives the least,
  -- the greatest and the percentiles of the latencies stored: each is one of these, and they are in
  -- the order of their percentages, from the least to the greatest. The accumulator has room for a
  -- sample and for fewer than 2^53, there are fewer than 2^64 samples with numbers below 2^64 - 1,
  -- and of the floating-point arithmetic it is given that a larger share of a count gets no smaller
  -- rank, and no share of one up to 2^53 a rank above it.
  pub report-IsReport :
      (d : Floating)
      → IsFloating d
      → 0 < length history
      → length history < 2 ^ 64
      → a.last_seq + 1 < 2 ^ 64
      → 0 < capacity
      → capacity < 2 ^ 53
      → IsReport capacity history a (report d a)
  unfolding statistics
  report-IsReport d law pos small wide room most =
      let (received, expected, dropped, overflow) = counts d pos small wide in
      let kept = take capacity history in
      rw (report-statistics d pos room small) (record {
        received = received;
        expected = expected;
        dropped = dropped;
        overflow = overflow;
        statistics =
            statistics-IsStatistics d (latencies kept)
              (omega (arith, length-latencies kept, take-pos capacity history room pos)) law
              (omega (arith, length-latencies kept, length-take_le capacity history))
              (count_report d a) a.samples (ap latencies v.samples);
      })
