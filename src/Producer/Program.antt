-- ===== src/Producer/Program.antt =====
-- harness/src/producer.cpp: `main` around its loop. The segment and the clock are arguments.
use low_latency_data_transfe.Base.{ℕ, List, Bool, true, Option, none, some, if◌then◌else◌}
use low_latency_data_transfe.Config.{Str}
use low_latency_data_transfe.Options.{Completion, done, exit, and_then}
use low_latency_data_transfe.Ring.{Region, region_size, attach}
use low_latency_data_transfe.Metrics.{Floating}
use low_latency_data_transfe.Message.{Profile}
use low_latency_data_transfe.Producer.{Builders, ProducerState, Round, no_trades, run_producer}
use low_latency_data_transfe.Producer.Options.{Config, parse_args}

-- What `main` meets besides the rounds of its loop: `std::stod`, the memory that
-- `shm::Segment::open` maps for a name, a size and the flag `create`, unless it exits; the clock
-- before the loop; and the uninitialised `frame`.
pub record Surroundings : Type 0 where
  pub stod : Str → Option ℕ
  pub opens : Str → ℕ → Bool → Option Region
  pub now : ℕ
  pub frame : List ℕ

-- `interval_ns`
unfoldable pub interval_of : Floating → ℕ → ℕ
interval_of d rate =
    if d.less (d.literal 0 1) rate then d.to_u64 (d.div (d.literal 1000000000 1) rate) else 0

module _ (p : Profile) (b : Builders) (d : Floating) (world : Surroundings)
    (rounds : List Round) where
  -- `main`, from the mapped segment to the end of the loop, or of the rounds.
  unfoldable pub produce_region : Config → Region → ProducerState
  unfolding interval_of
  produce_region config region =
      let (attached, mask) = attach p.max_frame region config.slots true in
      run_producer b config.kind mask (interval_of d config.rate) config.count
        (record {
          seq = 0;
          next_send = world.now;
          trade_state = no_trades;
          frame = world.frame;
          region = attached;
        })
        rounds

  unfoldable pub producer_main : List Str → Completion ProducerState
  unfolding produce_region
  producer_main args = and_then (parse_args world.stod (d.literal 0 1) args) λ config.
      elim (world.opens config.shm_name (region_size p.max_frame config.slots) true) [
        | none ↦ exit 1
        | some region ↦ done (produce_region config region)
      ]
