-- ===== src/Consumer/Program.antt =====
-- harness/src/consumer.cpp: `main` around its loop. The segment, the file and the clock are arguments.
use low_latency_data_transfe.Base.{
  ℕ, ◌*◌, List, Bool, false, Option, none, some, ◌==◌, not, ◌&&◌, if◌then◌else◌, u64, length,
}
use low_latency_data_transfe.Config.{Str}
use low_latency_data_transfe.Options.{Completion, done, exit, and_then}
use low_latency_data_transfe.Ring.{Region, region_size, attach, live_edge}
use low_latency_data_transfe.Metrics.{Accumulator, accumulator, Floating, Report, report}
use low_latency_data_transfe.Metrics.Csv.{dump_csv}
use low_latency_data_transfe.Consumer.{ConsumerState, Round, run_consumer, has_ended}
use low_latency_data_transfe.Consumer.Options.{Config, parse_args}

-- What `main` meets besides the rounds of its loop: the memory that `shm::Segment::open` maps for a
-- name, a size and the flag `create`, unless it exits; the region when `live_edge` loads; the clock
-- before the loop; the uninitialised `frame`; and whether `fopen` and `fclose` succeed on a file.
pub record Surroundings : Type 0 where
  pub opens : Str → ℕ → Bool → Option Region
  pub at_edge : Region
  pub now : ℕ
  pub frame : List ℕ
  pub creates : Str → Bool
  pub closes : Str → Bool

-- The state that the ended loop leaves, the report printed, the file written, and the exit status.
pub record ConsumerEnd : Type 0 where
  pub state : ConsumerState
  pub report : Report
  pub file : Option Str
  pub status : ℕ

-- `DEFAULT_SAMPLE_CAPACITY`, and the choice of the capacity.
unfoldable pub sample_capacity : ℕ → ℕ
sample_capacity count = if count == 0 then 4194304 else count

-- The locals of `main` before its loop.
unfoldable pub start_consumer : Surroundings → Config → ConsumerState
unfolding sample_capacity
start_consumer world config = record {
  read_index = if config.from_edge then live_edge world.at_edge else 0;
  received = 0;
  lapped_events = 0;
  last_progress = world.now;
  frame = world.frame;
  accumulator = accumulator (sample_capacity config.count);
  finished = false;
}

-- `dump_csv` with the file's name.
abbrev pub dump : Surroundings → Str → Accumulator → Option Str × Bool
dump world name a = dump_csv (world.creates name) (world.closes name) a

abbrev pub dumps : Surroundings → Str → Accumulator → Bool
dumps world name a = (dump world name a).1

-- The status, from the dump on.
unfoldable pub exit_status : Surroundings → Config → Accumulator → ℕ
exit_status world config a =
    if not (length config.csv == 0) && not (dumps world config.csv a)
    then 1
    else if a.overflow == 0
    then 0
    else 1

module _ (d : Floating) (world : Surroundings) where
  -- `main`, from the end of its loop on.
  unfoldable pub finish : Config → ConsumerState → ConsumerEnd
  unfolding exit_status
  finish config st = record {
    state = st;
    report = report d st.accumulator;
    file = if length config.csv == 0 then none else (dump world config.csv st.accumulator).0;
    status = exit_status world config st.accumulator;
  }

module _ (d : Floating) (frame_cap : ℕ) (world : Surroundings) (rounds : List Round) where
  -- `main`, from the mapped segment on; nothing, if its loop goes on behind the rounds.
  unfoldable pub measure_region : Config → Region → Option ConsumerEnd
  unfolding start_consumer finish
  measure_region config region =
      let (attached, mask) = attach frame_cap region config.slots false in
      let st =
        run_consumer mask config.count (u64 (config.idle_ms * 1000000))
          (start_consumer world config) rounds in
      if has_ended config.count st then some (finish d world config st) else none

  unfoldable pub consumer_main : List Str → Completion (Option ConsumerEnd)
  unfolding measure_region
  consumer_main args = and_then (parse_args args) λ config.
      elim (world.opens config.shm_name (region_size frame_cap config.slots) false) [
        | none ↦ exit 1
        | some region ↦ done (measure_region config region)
      ]
