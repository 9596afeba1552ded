-- ===== src/Consumer/Loop.antt =====
-- One round of the loop of harness/src/consumer.cpp, by what its read answers.
use low_latency_data_transfe.Base.{
  ℕ, ◌≤◌, ◌<◌, ◌≡◌, refl, ◌∙◌, sub64, List, [], ◌∷◌, Bool, if◌then◌else◌, ap, true, false, not,
  ◌&&◌, ltb, ◌==◌, lt→ltb, le→ltb,
}
use low_latency_data_transfe.Ring.{FrameStatus, empty, read}
use low_latency_data_transfe.Consumer.{ConsumerState, Round, consume, run_consumer}

if_false : {A : Type 0} (b : Bool) (x y : A) → b ≡ false → (if b then x else y) ≡ y
if_false b x y h = ap (λ c. if c then x else y) h

module _ (mask count idle_ns : ℕ) where
  pub run_consumer-nil : (st : ConsumerState) → run_consumer mask count idle_ns st [] ≡ st
  unfolding run_consumer
  run_consumer-nil st = refl

  module _ (st : ConsumerState) (round : Round) (rounds : List Round) where
    run_consumer-finished :
        st.finished ≡ true → run_consumer mask count idle_ns st (round ∷ rounds) ≡ st
    unfolding run_consumer
    run_consumer-finished finished = simp finished refl

    pub run_consumer-full :
        st.finished ≡ false
        → (not (count == 0) && not (ltb st.received count)) ≡ true
        → run_consumer mask count idle_ns st (round ∷ rounds) ≡ st
    unfolding run_consumer
    run_consumer-full going full = simp (going, full) refl

    pub run_consumer-goes_on :
        st.finished ≡ false
        → (not (count == 0) && not (ltb st.received count)) ≡ false
        → (answer : FrameStatus × List ℕ)
        → read round.snapshots mask st.read_index st.frame ≡ answer
        → run_consumer mask count idle_ns st (round ∷ rounds)
          ≡ run_consumer mask count idle_ns
              (consume idle_ns round.now (record st { frame = answer.1 }) (answer.0))
              rounds
    unfolding run_consumer
    run_consumer-goes_on going room answer e =
        if_false st.finished st _ going ∙ if_false _ st _ room ∙ ap after e
      where
        after : FrameStatus × List ℕ → ConsumerState
        after (status, o) =
            run_consumer mask count idle_ns
              (consume idle_ns round.now (record st { frame = o }) status) rounds

  -- Behind its `break` the loop does nothing.
  pub run_consumer-broken :
      (st : ConsumerState) (rounds : List Round)
      → run_consumer mask count idle_ns (record st { finished = true }) rounds
        ≡ record st { finished = true }
  run_consumer-broken st [] = run_consumer-nil _
  run_consumer-broken st (round ∷ rounds) = run_consumer-finished _ round rounds refl

  pub consume-idle :
      (now : ℕ) (st : ConsumerState)
      → idle_ns < sub64 now st.last_progress
      → consume idle_ns now st empty ≡ record st { finished = true }
  unfolding consume
  consume-idle now st late =
      ap (λ b. if b then record st { finished = true } else st)
        (lt→ltb idle_ns (sub64 now st.last_progress) late)

  pub consume-soon :
      (now : ℕ) (st : ConsumerState)
      → sub64 now st.last_progress ≤ idle_ns
      → consume idle_ns now st empty ≡ st
  unfolding consume
  consume-soon now st soon =
      if_false _ (record st { finished = true }) st
        (le→ltb idle_ns (sub64 now st.last_progress) soon)
