-- ===== src/Consumer/Measured.antt =====
-- What the loop of harness/src/consumer.cpp leaves that followed its course.
use low_latency_data_transfe.Base.{
  ℕ, ◌+◌, ◌^◌, ◌<◌, ◌≡◌, refl, sym, sub64, subst, List, [], ◌∷◌, ◌++◌, true, false, not, ◌&&◌, ltb,
  ◌==◌, arith, length, append_assoc, append-nil,
}
use low_latency_data_transfe.Ring.{ok}
use low_latency_data_transfe.Metrics.{Sample, record_sample}
use low_latency_data_transfe.Metrics.Accumulated.{IsAccumulated, record_sample-IsAccumulated}
use low_latency_data_transfe.Consumer.{ConsumerState, consume, has_ended}
use low_latency_data_transfe.Consumer.Course.{
  Event, waited, met, Ending, idle, limit, running, is_over, Below, Course, events_end, has_limit,
  is_idle, takes, samples_of, sample_of, measure-sample_of,
}

-- A loop with so many samples and frames so far.
pub record IsMeasuring (capacity t : ℕ) (recorded : List Sample) (n : ℕ) (st : ConsumerState)
    : Type 0 where
  pub progress : st.last_progress ≡ t
  pub received : st.received ≡ n
  pub going : st.finished ≡ false
  pub samples : IsAccumulated capacity recorded st.accumulator

-- What a loop leaves that followed its course through the events: it has ended exactly if the course
-- has, and has recorded the samples of the frames that it took.
pub record Measures (count idle_ns capacity t : ℕ) (recorded : List Sample) (n : ℕ)
    (events : List Event) (end : ConsumerState) : Type 0 where
  pub got : List (List ℕ × ℕ)
  pub ending : Ending
  pub course : Course count idle_ns t n events got ending
  pub ended : has_ended count end ≡ is_over ending
  pub received : end.received ≡ n + length got
  pub samples : IsAccumulated capacity (recorded ++ samples_of got) end.accumulator

module _ (count idle_ns capacity t : ℕ) (recorded : List Sample) (n : ℕ) where
  -- A loop that takes nothing more.
  nothing_more :
      (events : List Event) (ending : Ending) (end : ConsumerState)
      → Course count idle_ns t n events [] ending
      → has_ended count end ≡ is_over ending
      → end.received ≡ n
      → IsAccumulated capacity recorded end.accumulator
      → Measures count idle_ns capacity t recorded n events end
  nothing_more events ending end course ended same acc = record {
    got = [];
    ending = ending;
    course = course;
    ended = ended;
    received = omega arith;
    samples = subst (λ r. IsAccumulated capacity r end.accumulator) (sym (append-nil recorded)) acc;
  }

  -- A round in which nothing is taken.
  pub skipped :
      (event : Event) (events : List Event) (end : ConsumerState)
      → ((got : List (List ℕ × ℕ)) (ending : Ending)
          → Course count idle_ns t n events got ending
          → Course count idle_ns t n (event ∷ events) got ending)
      → Measures count idle_ns capacity t recorded n events end
      → Measures count idle_ns capacity t recorded n (event ∷ events) end
  skipped event events end further v = record {
    got = v.got;
    ending = v.ending;
    course = further v.got v.ending v.course;
    ended = v.ended;
    received = v.received;
    samples = v.samples;
  }

  -- A round in which a frame is taken.
  pub taken :
      (f : List ℕ) (now : ℕ) (events : List Event) (end : ConsumerState)
      → Below count n
      → Measures count idle_ns capacity now (recorded ++ sample_of f now ∷ []) (n + 1) events end
      → Measures count idle_ns capacity t recorded n (met f now ∷ events) end
  taken f now events end b v = record {
    got = (f, now) ∷ v.got;
    ending = v.ending;
    course = takes b v.course;
    ended = v.ended;
    received = omega (arith, v.received);
    samples =
        subst (λ r. IsAccumulated capacity r end.accumulator)
          (append_assoc recorded (sample_of f now ∷ []) (samples_of v.got)) v.samples;
  }

  module _ (st : ConsumerState) (v : IsMeasuring capacity t recorded n st) where
    -- A loop that has its limit, before a round.
    pub full-Measures :
        (events : List Event)
        → (not (count == 0) && not (ltb st.received count)) ≡ true
        → Measures count idle_ns capacity t recorded n events st
    unfolding has_ended
    full-Measures events full =
        nothing_more events limit st
          (has_limit (ground (arith, full)) (ground (arith, full, v.received)))
          (ground (arith, full)) v.received v.samples

    -- A loop that goes on behind the rounds.
    pub running-Measures :
        (not (count == 0) && not (ltb st.received count)) ≡ false
        → Measures count idle_ns capacity t recorded n [] st
    unfolding has_ended
    running-Measures room =
        nothing_more [] running st (events_end (ground (arith, room, v.received)))
          (ground (arith, room, v.going)) v.received v.samples

    pub room-Below : (not (count == 0) && not (ltb st.received count)) ≡ false → Below count n
    room-Below room = ground (arith, room, v.received)

    -- A loop that was idle for too long.
    pub idle-Measures :
        (now : ℕ) (events : List Event)
        → Below count n
        → idle_ns < sub64 now t
        → Measures count idle_ns capacity t recorded n
            (waited now ∷ events)
            (record st { finished = true })
    unfolding has_ended
    idle-Measures now events b late =
        nothing_more (waited now ∷ events) idle (record st { finished = true }) (is_idle b late)
          refl v.received v.samples

-- The state behind a frame.
pub consume-IsMeasuring :
    (capacity t idle_ns now len : ℕ) (recorded : List Sample) (n : ℕ) (st : ConsumerState)
    → IsMeasuring capacity t recorded n st
    → length recorded + 1 < 2 ^ 64
    → n + 1 < 2 ^ 64
    → IsMeasuring capacity now
        (recorded ++ sample_of st.frame now ∷ [])
        (n + 1)
        (consume idle_ns now st (ok len))
unfolding consume
consume-IsMeasuring capacity t idle_ns now len recorded n st v small few = record {
  progress = refl;
  received = omega (arith, v.received);
  going = v.going;
  samples =
      subst
        (λ s.
          IsAccumulated capacity (recorded ++ sample_of st.frame now ∷ [])
            (record_sample st.accumulator s))
        (sym (measure-sample_of now st.frame))
        (record_sample-IsAccumulated capacity recorded st.accumulator (sample_of st.frame now)
          v.samples small);
}
