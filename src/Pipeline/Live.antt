-- ===== src/Pipeline/Live.antt =====
-- The loops of harness/src/producer.cpp and harness/src/consumer.cpp at one ring at the same time.
use low_latency_data_transfe.Base.{
  ℕ, ◌≡◌, ◌⊎◌, List, some, none, Option, if◌then◌else◌, length, take,
}
use low_latency_data_transfe.Bytes.{load_field}
use low_latency_data_transfe.Message.{Profile}
use low_latency_data_transfe.Ring.Writer.{idle}
use low_latency_data_transfe.Metrics.{Floating, report}
use low_latency_data_transfe.Metrics.Percentiles.{IsFloating}
use low_latency_data_transfe.Producer
use low_latency_data_transfe.Producer.{IsBuilders}
use low_latency_data_transfe.Consumer
use low_latency_data_transfe.Consumer.{ConsumerState, has_ended}
use low_latency_data_transfe.Consumer.Options.{Config}
use low_latency_data_transfe.Consumer.Program.{ConsumerEnd, finish}
use low_latency_data_transfe.Consumer.Course.{Event, Ending, Course, frames_of}

-- What is reported, at the end, of the frames received.
abbrev pub Reports : List (List ℕ × ℕ) → ConsumerEnd → Type 0
Reports got end =
    (end.status ≡ 0)
    × (end.report.received ≡ length got)
    × ((length got ≡ 0) ⊎ ((end.report.expected ≡ length got) × (end.report.dropped ≡ 0)))

-- What becomes of a consumer without a limit that meets the events of a producer.
pub record Received (idle_ns t : ℕ) (published : List (List ℕ)) (events : List Event)
    (result : Option ConsumerEnd) : Type 0 where
  pub got : List (List ℕ × ℕ)
  pub ending : Ending
  pub course : Course 0 idle_ns t 0 events got ending
  pub order : take (length got) published ≡ frames_of got
  pub outcome :
      ((ending ≡ Ending.running) × (result ≡ none))
      ⊎ ((ending ≡ Ending.idle) × (end : ConsumerEnd) × (result ≡ some end) × Reports got end)

module _ (p : Profile) (at_front : (f : List ℕ) → p.seq_id f ≡ load_field 0 8 f) (d : Floating)
    (floating : IsFloating d) (world : Consumer.Program.Surroundings) (config : Config) where
  -- What `main` makes of the state that the loop leaves.
  abbrev outcome : ConsumerState → Option ConsumerEnd
  outcome st = if has_ended config.count st then some (finish d world config st) else none
