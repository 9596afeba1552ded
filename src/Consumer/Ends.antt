-- ===== src/Consumer/Ends.antt =====
-- How `main` of harness/src/consumer.cpp ends.
use low_latency_data_transfe.Base.{
  ℕ, take, ◌≤◌, [], List, true, false, ◌≡◌, refl, ◌⊎◌, ◌↔◌, Bool-cases, inl, inr, Option, none,
  some, arith, length, u64, ◌*◌, ◌==◌,
}
use low_latency_data_transfe.Config.{Str}
use low_latency_data_transfe.Ring.{Region, region_size, attach}
use low_latency_data_transfe.Metrics.{Sample, Accumulator, Floating, report}
use low_latency_data_transfe.Metrics.Accumulated.{accumulator-IsAccumulated}
use low_latency_data_transfe.Metrics.Csv.{read_csv}
use low_latency_data_transfe.Options.{Completion, done, exit, uncaught}
use low_latency_data_transfe.Options.Yields.{Yields}
use low_latency_data_transfe.Consumer.{Round, ConsumerState}
use low_latency_data_transfe.Consumer.Course.{Event, limit, idle, running, Course, samples_of}
use low_latency_data_transfe.Consumer.Options.{Config, parse_args}
use low_latency_data_transfe.Consumer.Measured.{Measures, IsMeasuring}
use low_latency_data_transfe.Consumer.Runs.{events_of}
use low_latency_data_transfe.Consumer.Program.{
  Surroundings, ConsumerEnd, sample_capacity, start_consumer, exit_status, dumps,
}

-- No file, where none is asked for or it cannot be opened, or one that has the samples.
abbrev pub FileOf : Surroundings → Str → List Sample → Option Str → Type 0
FileOf world name samples file =
    ((file ≡ none) × ((length name ≡ 0) ⊎ (world.creates name ≡ false)))
    ⊎ ((text : Str) × (file ≡ some text) × (read_csv text ≡ samples))

abbrev pub mask_of : (frame_cap : ℕ) → Region → Config → ℕ
mask_of frame_cap region config = (attach frame_cap region config.slots false).1

-- What the rounds bring a reader with the options in a region.
abbrev pub events :
    (frame_cap : ℕ) (world : Surroundings) → Config → Region → List Round → List Event
events frame_cap world config region rounds =
    events_of (mask_of frame_cap region config) (start_consumer world config).read_index world.frame
      rounds

-- A loop over the rounds that follows its course through what they bring, and has recorded the
-- samples of the frames that it took.
abbrev pub Loop :
    (frame_cap : ℕ) (world : Surroundings) → Config → Region → List Round → ConsumerState → Type 0
Loop frame_cap world config region rounds st =
    Measures config.count (u64 (config.idle_ms * 1000000)) (sample_capacity config.count) world.now
      [] 0 (events frame_cap world config region rounds) st

-- A configuration and the segment opened for it.
abbrev pub Opened : (frame_cap : ℕ) (world : Surroundings) → List Str → Config → Region → Type 0
Opened frame_cap world args config region =
    (parse_args args ≡ done config)
    × (world.opens config.shm_name (region_size frame_cap config.slots) false ≡ some region)

-- What a run that gets to the end of `main` has.
pub record Measurement (d : Floating) (frame_cap : ℕ) (world : Surroundings) (rounds : List Round)
    (config : Config) (region : Region) (end : ConsumerEnd) : Type 0 where
  pub loop : Loop frame_cap world config region rounds end.state
  pub over : (loop.ending ≡ limit) ⊎ (loop.ending ≡ idle)
  pub reported : end.report ≡ report d end.state.accumulator
  pub file :
      FileOf world config.csv (take (sample_capacity config.count) (samples_of loop.got)) end.file
  pub most : length loop.got ≤ length rounds
  pub limited : (config.count ≡ 0) ⊎ (length loop.got ≤ config.count)
  pub status : (end.status ≡ 0) ↔ (
      ((length config.csv ≡ 0) ⊎ (dumps world config.csv end.state.accumulator ≡ true))
      × (length loop.got ≤ sample_capacity config.count))

-- The frames that a loop without an end has taken.
pub record StillMeasuring (frame_cap : ℕ) (world : Surroundings) (rounds : List Round)
    (config : Config) (region : Region) : Type 0 where
  pub got : List (List ℕ × ℕ)
  pub course :
      Course config.count
        (u64 (config.idle_ms * 1000000))
        world.now
        0
        (events frame_cap world config region rounds)
        got
        running

module _ (d : Floating) (frame_cap : ℕ) (world : Surroundings) (rounds : List Round) where
  -- What becomes of the loop.
  abbrev pub Measured : Config → Region → Option ConsumerEnd → Type 0
  Measured config region (some end) = Measurement d frame_cap world rounds config region end
  Measured config region none = StillMeasuring frame_cap world rounds config region

  -- The ways in which `main` ends.
  abbrev pub Ends : List Str → Completion (Option ConsumerEnd) → Type 0
  Ends args (done result) =
      (config : Config) × (region : Region) × Opened frame_cap world args config region
      × Measured config region result
  Ends args (exit status) =
      ((status ≡ 2) × (parse_args args ≡ exit 2))
      ⊎ ((status ≡ 1)
          × (config : Config) × (parse_args args ≡ done config)
          × (world.opens config.shm_name (region_size frame_cap config.slots) false ≡ none))
  Ends args uncaught = parse_args args ≡ uncaught

  pub exit_status-zero :
      (config : Config) (a : Accumulator)
      → (exit_status world config a ≡ 0)
        ↔ (((length config.csv ≡ 0) ⊎ (dumps world config.csv a ≡ true)) × (a.overflow ≡ 0))
  unfolding exit_status
  exit_status-zero config a = (
    (λ e. elim (Bool-cases (length config.csv == 0)) [
      | inl unasked ↦ (inl (ground (arith, unasked)), ground (arith, e, unasked))
      | inr asked ↦ elim (Bool-cases (dumps world config.csv a)) [
        | inl written ↦ (inr written, ground (arith, e, asked, written))
        | inr failed ↦ absurd (ground (arith, e, asked, failed))
      ]
    ]),
    (λ h. elim h.0 [
      | inl unasked ↦ ground (arith, unasked, h.1)
      | inr written ↦ ground (arith, written, h.1)
    ]),
  )

  pub start-IsMeasuring :
      (config : Config)
      → IsMeasuring (sample_capacity config.count) world.now [] 0 (start_consumer world config)
  unfolding start_consumer
  start-IsMeasuring config = record {
    progress = refl;
    received = refl;
    going = refl;
    samples = accumulator-IsAccumulated (sample_capacity config.count);
  }
