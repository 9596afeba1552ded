-- ===== src/Consumer.antt =====
-- harness/src/consumer.cpp: the loop of the consumer, which reads a ring and measures latencies. What
-- a round meets is its argument: the ring at the read's loads, and the clock `util::now_ns`.
pub mod Course
pub mod Options
pub mod Program
pub mod Measured
pub mod Loop
pub mod Runs
pub mod Arguments
pub mod Ends
pub mod Watched
use low_latency_data_transfe.Base.{
  ℕ, ◌+◌, ◌-◌, List, [], ◌∷◌, Bool, true, false, ◌&&◌, ◌||◌, not, ltb, ◌==◌, if◌then◌else◌, u64,
  sub64,
}
use low_latency_data_transfe.Bytes.{load_field}
use low_latency_data_transfe.Ring.{Snapshots, FrameStatus, ok, empty, lapped, read}
use low_latency_data_transfe.Metrics.{Sample, Accumulator, record_sample}

pub record Framing : Type 0 where
  pub seq_id : ℕ
  pub send_ts_ns : ℕ

unfoldable pub load_framing : List ℕ → Framing
load_framing frame = record { seq_id = load_field 0 8 frame; send_ts_ns = load_field 8 8 frame }

-- The locals of `main` that live across rounds; `finished` is set where the loop breaks.
pub record ConsumerState : Type 0 where
  pub read_index : ℕ
  pub received : ℕ
  pub lapped_events : ℕ
  pub last_progress : ℕ
  pub frame : List ℕ
  pub accumulator : Accumulator
  pub finished : Bool

-- The sample of a frame received at `now`; a timestamp of the future counts as no latency.
unfoldable pub measure : ℕ → List ℕ → Sample
unfolding load_framing
measure now frame =
    let framing = load_framing frame in
    record {
      seq_id = framing.seq_id;
      latency_ns = if ltb framing.send_ts_ns now then now - framing.send_ts_ns else 0;
    }

-- The branches on the status of the read, on the state whose `frame` the read has written.
unfoldable pub consume : ℕ → ℕ → ConsumerState → FrameStatus → ConsumerState
unfolding measure
consume idle_ns now st (ok len) = record st {
  accumulator = record_sample st.accumulator (measure now st.frame);
  received = u64 (st.received + 1);
  read_index = u64 (st.read_index + 1);
  last_progress = now;
}
consume idle_ns now st (lapped resume) = record st {
  lapped_events = u64 (st.lapped_events + 1);
  read_index = resume;
}
consume idle_ns now st empty =
    if ltb idle_ns (sub64 now st.last_progress) then record st { finished = true } else st

-- Whether the loop has ended: by its `break`, or by the limit in its condition.
unfoldable pub has_ended : ℕ → ConsumerState → Bool
has_ended count st = st.finished || (not (count == 0) && not (ltb st.received count))

-- What a round meets.
pub record Round : Type 0 where
  pub snapshots : Snapshots
  pub now : ℕ

-- `while (config.count == 0 || received < config.count)`, over the rounds that there are; `has_ended`
-- tells a loop that has ended from one that goes on behind them.
unfoldable pub run_consumer : ℕ → ℕ → ℕ → ConsumerState → List Round → ConsumerState
unfolding consume
run_consumer mask count idle_ns st [] = st
run_consumer mask count idle_ns st (round ∷ rounds) =
    let (status, out) = read round.snapshots mask st.read_index st.frame in
    let rest =
      run_consumer mask count idle_ns (consume idle_ns round.now (record st { frame = out }) status)
        rounds in
    if st.finished then st else if not (count == 0) && not (ltb st.received count) then st else rest
