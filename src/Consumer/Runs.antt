-- ===== src/Consumer/Runs.antt =====
-- Any run of the loop of harness/src/consumer.cpp, whatever the ring holds while it runs.
use low_latency_data_transfe.Base.{
  ℕ, ◌+◌, ◌^◌, ◌≤◌, ◌<◌, ◌≡◌, refl, sym, ◌∙◌, sub64, subst, inl, inr, List, [], ◌∷◌, ◌++◌, ap, not,
  ◌&&◌, ltb, ◌==◌, arith, length, length-append, Bool-cases, u64, lt-or-le,
}
use low_latency_data_transfe.Ring.{FrameStatus, ok, empty, lapped, read}
use low_latency_data_transfe.Metrics.{Sample}
use low_latency_data_transfe.Consumer.{ConsumerState, Round, consume, run_consumer}
use low_latency_data_transfe.Consumer.Course.{
  Event, waited, met, overtaken, Below, waits_on, catches_up, sample_of,
}
use low_latency_data_transfe.Consumer.Loop.{
  run_consumer-nil, run_consumer-full, run_consumer-goes_on, run_consumer-broken, consume-idle,
  consume-soon,
}
use low_latency_data_transfe.Consumer.Measured.{
  IsMeasuring, Measures, full-Measures, running-Measures, room-Below, idle-Measures, skipped, taken,
  consume-IsMeasuring,
}

-- The events of rounds for a reader at position `i`, by what its reads answer.
abbrev pub event_of : ℕ → FrameStatus → List ℕ → Event
event_of now (ok len) out = met out now
event_of now empty out = waited now
event_of now (lapped resume) out = overtaken now

abbrev pub next_position : ℕ → FrameStatus → ℕ
next_position i (ok len) = u64 (i + 1)
next_position i empty = i
next_position i (lapped resume) = resume

abbrev pub events_of : ℕ → ℕ → List ℕ → List Round → List Event
events_of mask i buffer [] = []
events_of mask i buffer (round ∷ rounds) =
    let (status, out) = read round.snapshots mask i buffer in
    event_of round.now status out ∷ events_of mask (next_position i status) out rounds

-- The end of the rounds.
pub nil-Measures :
    (mask count idle_ns capacity t : ℕ) (recorded : List Sample) (n : ℕ) (st : ConsumerState)
    → IsMeasuring capacity t recorded n st
    → Measures count idle_ns capacity t recorded n [] (run_consumer mask count idle_ns st [])
nil-Measures mask count idle_ns capacity t recorded n st v =
    subst (Measures count idle_ns capacity t recorded n [])
      (sym (run_consumer-nil mask count idle_ns st))
      (elim (Bool-cases (not (count == 0) && not (ltb st.received count))) [
        | inl full ↦ full-Measures count idle_ns capacity t recorded n st v [] full
        | inr room ↦ running-Measures count idle_ns capacity t recorded n st v room
      ])

module _ (mask count idle_ns capacity t : ℕ) (recorded : List Sample) (n : ℕ) (st : ConsumerState)
    (v : IsMeasuring capacity t recorded n st) (round : Round) (rounds : List Round)
    (events : List Event) where
  -- A round of a loop that has its limit, or goes on with what the read answers.
  pub round-Measures :
      (answer : FrameStatus × List ℕ)
      → read round.snapshots mask st.read_index st.frame ≡ answer
      → (Below count n
          → Measures count idle_ns capacity t recorded n events (
              run_consumer mask count idle_ns
                (consume idle_ns round.now (record st { frame = answer.1 }) (answer.0))
                rounds))
      → Measures count idle_ns capacity t recorded n events
          (run_consumer mask count idle_ns st (round ∷ rounds))
  round-Measures answer e more =
      elim (Bool-cases (not (count == 0) && not (ltb st.received count))) [
        | inl full ↦
            subst (Measures count idle_ns capacity t recorded n events)
              (sym (run_consumer-full mask count idle_ns st round rounds v.going full))
              (full-Measures count idle_ns capacity t recorded n st v events full)
        | inr room ↦
            subst (Measures count idle_ns capacity t recorded n events)
              (sym (run_consumer-goes_on mask count idle_ns st round rounds v.going room answer e))
              (more (room-Below count idle_ns capacity t recorded n st v room))
      ]

  -- A round in which there is no frame.
  pub empty-Measures :
      (out : List ℕ)
      → Below count n
      → Measures count idle_ns capacity t recorded n events
          (run_consumer mask count idle_ns (record st { frame = out }) rounds)
      → Measures count idle_ns capacity t recorded n (waited round.now ∷ events) (
          run_consumer mask count idle_ns
            (consume idle_ns round.now (record st { frame = out }) empty)
            rounds)
  empty-Measures out below more = elim (lt-or-le idle_ns (sub64 round.now t)) [
    | inl late ↦
        subst (Measures count idle_ns capacity t recorded n (waited round.now ∷ events))
          (sym (
            ap (λ s. run_consumer mask count idle_ns s rounds)
              (consume-idle mask count idle_ns round.now (record st { frame = out })
                (subst (λ p. idle_ns < sub64 round.now p) (sym v.progress) late))
            ∙ run_consumer-broken mask count idle_ns (record st { frame = out }) rounds))
          (idle-Measures count idle_ns capacity t recorded n (record st { frame = out })
            (record {
              progress = v.progress;
              received = v.received;
              going = v.going;
              samples = v.samples;
            })
            round.now events below late)
    | inr soon ↦
        subst (Measures count idle_ns capacity t recorded n (waited round.now ∷ events))
          (sym (
            ap (λ s. run_consumer mask count idle_ns s rounds)
              (consume-soon mask count idle_ns round.now (record st { frame = out })
                (subst (λ p. sub64 round.now p ≤ idle_ns) (sym v.progress) soon))))
          (skipped count idle_ns capacity t recorded n (waited round.now) events _
            (λ got ending c. waits_on below soon c) more)
  ]

module _ (mask count idle_ns capacity : ℕ) where
  -- What a loop that has made a round more makes of the other rounds.
  abbrev Continues : List Round → Type 0
  Continues rounds =
      (t : ℕ) (recorded : List Sample) (n : ℕ) (st : ConsumerState)
      → IsMeasuring capacity t recorded n st
      → length recorded + length rounds < 2 ^ 64
      → n + length rounds < 2 ^ 64
      → Measures count idle_ns capacity t recorded n (events_of mask st.read_index st.frame rounds)
          (run_consumer mask count idle_ns st rounds)

  module _ (t : ℕ) (recorded : List Sample) (n : ℕ) (st : ConsumerState) (round : Round)
      (rounds : List Round) (v : IsMeasuring capacity t recorded n st)
      (small : length recorded + length (round ∷ rounds) < 2 ^ 64)
      (few : n + length (round ∷ rounds) < 2 ^ 64) (below : Below count n)
      (others : Continues rounds) where
    after_read :
        (status : FrameStatus) (out : List ℕ)
        → Measures count idle_ns capacity t recorded n
            (event_of round.now status out
              ∷ events_of mask (next_position st.read_index status) out rounds)
            (run_consumer mask count idle_ns
              (consume idle_ns round.now (record st { frame = out }) status)
              rounds)
    unfolding consume
    after_read (ok len) out = taken count idle_ns capacity t recorded n out round.now _ _ below (
        others round.now (recorded ++ sample_of out round.now ∷ []) (n + 1) _
          (consume-IsMeasuring capacity t idle_ns round.now len recorded n
            (record st { frame = out })
            (record {
              progress = v.progress;
              received = v.received;
              going = v.going;
              samples = v.samples;
            })
            (omega arith) (omega arith))
          (omega (arith, length-append recorded (sample_of out round.now ∷ []))) (omega arith))
    after_read (lapped resume) out =
        skipped count idle_ns capacity t recorded n (overtaken round.now) _ _
          (λ got ending c. catches_up below c)
          (others t recorded n _
            (record {
              progress = v.progress;
              received = v.received;
              going = v.going;
              samples = v.samples;
            })
            (omega arith) (omega arith))
    after_read empty out =
        empty-Measures mask count idle_ns capacity t recorded n st v round rounds _ out below (
          others t recorded n (record st { frame = out })
            (record {
              progress = v.progress;
              received = v.received;
              going = v.going;
              samples = v.samples;
            })
            (omega arith) (omega arith))

  -- Any run, of fewer than 2^64 rounds, follows the course through what its reads answer.
  pub run_consumer-Measures :
      (t : ℕ) (recorded : List Sample) (n : ℕ) (st : ConsumerState) (rounds : List Round)
      → IsMeasuring capacity t recorded n st
      → length recorded + length rounds < 2 ^ 64
      → n + length rounds < 2 ^ 64
      → Measures count idle_ns capacity t recorded n
          (events_of mask st.read_index st.frame rounds)
          (run_consumer mask count idle_ns st rounds)
  run_consumer-Measures t recorded n st [] v small few =
      nil-Measures mask count idle_ns capacity t recorded n st v
  run_consumer-Measures t recorded n st (round ∷ rounds) v small few =
      round-Measures mask count idle_ns capacity t recorded n st v round rounds _
        (read round.snapshots mask st.read_index st.frame) refl
        λ below.
          after_read t recorded n st round rounds v small few below
            (λ t' recorded' n' st' v' small' few'.
              run_consumer-Measures t' recorded' n' st' rounds v' small' few')
            _ _
