-- ===== src/Tests/Programs.antt =====
-- The producer and the consumer from their arguments on.
use low_latency_data_transfe.Base.{
  ℕ, length, get_elem?, ◌≡◌, refl, [], ◌∷◌, List, none, some, true, arith, replicate,
}
use low_latency_data_transfe.Config.{Str}
use low_latency_data_transfe.Options.{codes, done, exit, uncaught, stoull}
use low_latency_data_transfe.Message.Compact.{compact, load_header, frame_size}
use low_latency_data_transfe.Producer.Compact.{compact_builders}
use low_latency_data_transfe.Producer.Compact.Frames.{compact_builders-IsBuilders}
use low_latency_data_transfe.Producer
use low_latency_data_transfe.Producer.{ProducerState}
use low_latency_data_transfe.Producer.Program.{producer_main, produce_region}
use low_latency_data_transfe.Producer.Ends.{producer_main-Ends}
use low_latency_data_transfe.Producer.Published.{Runs, run_producer-IsProduced}
use low_latency_data_transfe.Ring.Writer.{idle, Reach}
use low_latency_data_transfe.Ring.Loads.{Loads}
use low_latency_data_transfe.Consumer.Watched.{round_at}
use low_latency_data_transfe.Consumer
use low_latency_data_transfe.Consumer.Program.{ConsumerEnd}
use low_latency_data_transfe.Consumer.Course.{Event, met, waited}
use low_latency_data_transfe.Tests.Consumers.{fixed_point}
use low_latency_data_transfe.Tests.Producers.{rounds, stamps, start, start-IsProduced}
use low_latency_data_transfe.Tests.Hosts.{rx_host, rx_host-MapsWhole}
use low_latency_data_transfe.Tests.Data.{ring₂}

-- Spaces and a sign are skipped, and what follows the digits is not read.
stoull_example :
    (stoull (codes " +42x") ≡ done 42)
    × (stoull (codes "-1") ≡ done 18446744073709551615)
    × (stoull (codes "18446744073709551616") ≡ uncaught)
    × (stoull (codes "x1") ≡ uncaught)
unfolding stoull
stoull_example = (refl, refl, refl, refl)

abbrev consumer_args : List Str
consumer_args =
    codes "--count"
    ∷ codes "2"
    ∷ codes "--from-edge"
    ∷ codes "--slots"
    ∷ codes "4294967298"
    ∷ codes "--csv"
    ∷ codes "out.csv"
    ∷ []

-- The number of slots keeps 32 bits.
parse_consumer_args_example :
    (Consumer.Options.parse_args consumer_args
      ≡ done (record Consumer.Options.default_config {
        count = 2;
        from_edge = true;
        slots = 2;
        csv = codes "out.csv";
      }))
    × (Consumer.Options.parse_args (codes "--csv" ∷ []) ≡ exit 2)
    × (Consumer.Options.parse_args (codes "--rate" ∷ codes "1" ∷ []) ≡ exit 2)
unfolding Consumer.Options.parse_args
parse_consumer_args_example = (refl, refl, refl)

abbrev reading : Consumer.Program.Surroundings
reading = record {
  opens = λ name size create. some ring₂;
  at_edge = ring₂;
  now = 0;
  frame = replicate 96 0;
  creates = λ name. true;
  closes = λ name. true;
}

abbrev producer_args : List Str
producer_args =
    codes "--slots" ∷ codes "2" ∷ codes "--count" ∷ codes "3" ∷ codes "--type" ∷ codes "bbo" ∷ []

-- Three slots are refused, and so is a rate that is no number.
parse_producer_args_example :
    (Producer.Options.parse_args (λ s. none) 0 producer_args
      ≡ done (record {
        shm_name = codes "/fanout_ring";
        slots = 2;
        count = 3;
        rate = 0;
        kind = Producer.Kind.bbo;
      }))
    × (Producer.Options.parse_args (λ s. none) 0 (codes "--slots" ∷ codes "3" ∷ []) ≡ exit 2)
    × (Producer.Options.parse_args (λ s. none) 0 (codes "--rate" ∷ codes "x" ∷ []) ≡ uncaught)
unfolding Producer.Options.parse_args
parse_producer_args_example = (refl, refl, refl)

abbrev writing : Producer.Program.Surroundings
writing = record { stod = λ s. none; opens = rx_host.opens; now = 5000; frame = replicate 96 0 }

producer_main-Ends_example :
    Producer.Ends.Ends compact compact_builders compact_builders-IsBuilders fixed_point writing
      rounds producer_args
      (producer_main compact compact_builders fixed_point writing rounds producer_args)
unfolding load_header frame_size
producer_main-Ends_example =
    producer_main-Ends compact compact_builders compact_builders-IsBuilders fixed_point writing
      rounds producer_args rx_host-MapsWhole refl (omega arith)

-- A producer without a rate publishes one message, and the consumer's rounds come behind it, the
-- second of them three seconds later.
abbrev one_round : List Producer.Round
one_round = record { readings = []; stamps = stamps } ∷ []

abbrev ended : ProducerState
ended = Producer.run_producer compact_builders Producer.Kind.bbo 1 0 0 start one_round

one_message :
    Runs compact compact_builders compact_builders-IsBuilders Producer.Kind.bbo 1 0 0 []
      start.region one_round ended
one_message =
    run_producer-IsProduced compact compact_builders compact_builders-IsBuilders Producer.Kind.bbo 1
      0 0 [] start one_round start-IsProduced (omega arith)

one_frame : (fs : List (List ℕ)) → length fs ≡ 1 → (f : List ℕ) × (get_elem? fs 0 ≡ some f)
one_frame [] h = absurd (omega arith)
one_frame (f ∷ fs) h = (f, refl)

abbrev quiet : Loads 1 96
quiet = record {
  at_seq = idle one_message.frames ended.region;
  at_len = idle one_message.frames ended.region;
  at_copy = λ b. idle one_message.frames ended.region;
  at_recheck = idle one_message.frames ended.region;
  at_edge = idle one_message.frames ended.region;
  to_len = Reach.here;
  to_copy = λ b. Reach.here;
  to_recheck = λ b. Reach.here;
  to_edge = Reach.here;
}

count_published : length one_message.frames ≡ 1
count_published = one_message.unpaced refl refl

abbrev from_start : Consumer.Program.Surroundings
from_start = record reading { frame = replicate 96 0 }

abbrev two_rounds : List Consumer.Round
two_rounds = round_at 1 96 quiet 1000 ∷ round_at 1 96 quiet 3000000000 ∷ []

abbrev two_events : List Event
two_events = met (one_frame one_message.frames count_published).0 1000 ∷ waited 3000000000 ∷ []
