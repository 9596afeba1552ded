-- ===== src/Tests/Producers.antt =====
-- The producer at a ring of two slots: a run of three messages, and the messages of number 7.
use low_latency_data_transfe.Base.{
  ℕ, ◌+◌, ◌-◌, ◌*◌, ◌^◌, ◌≡◌, refl, List, [], ◌∷◌, arith, replicate, take, length, u64,
}
use low_latency_data_transfe.Message.Compact.{compact, load_header, frame_size}
use low_latency_data_transfe.Message.Raw.{raw}
use low_latency_data_transfe.Producer
use low_latency_data_transfe.Producer.{
  CompactTradeState, no_trades, Stamps, ProducerState, Round, IsBuilders, run_producer, build,
  choose,
}
use low_latency_data_transfe.Producer.Published.{IsProduced, Runs, run_producer-IsProduced}
use low_latency_data_transfe.Producer.Compact.{
  compact_builders, trade_quantity, mid_price_ticks, book_of, bbo_of,
}
use low_latency_data_transfe.Producer.Compact.Frames.{
  compact_builders-IsBuilders, IsClose, Says, type_of_kind, build-Says,
}
use low_latency_data_transfe.Producer.Compact.Fields.{
  Descending, Ascending, bid_prices, ask_prices, book_of-bbo_of, IsExact, messages-IsExact,
  add_trades, sum, add_trades-sum,
}
use low_latency_data_transfe.Producer.Raw.{Double, raw_builders}
use low_latency_data_transfe.Producer.Raw.Frames.{raw_builders-IsBuilders}
use low_latency_data_transfe.Tests.Data.{ring₀, ring₀-IsRing}

abbrev pub stamps : Stamps
stamps = record { exchange_ts_ns = 1000; send_ts_ns = 1300 }

abbrev pub start : ProducerState
start = record {
  seq = 0;
  next_send = 5000;
  trade_state = no_trades;
  frame = replicate 96 0;
  region = ring₀;
}

pub start-IsProduced : IsProduced compact 1 [] start
unfolding load_header frame_size
start-IsProduced = record { buffer = refl; seq = refl; ring = ring₀-IsRing; numbered = tt }

-- The second round waits once, and the fourth is behind the limit.
abbrev pub rounds : List Round
rounds =
    record { readings = 5000 ∷ []; stamps = stamps }
    ∷ record { readings = 5001 ∷ 6000 ∷ []; stamps = stamps }
    ∷ record { readings = 7001 ∷ []; stamps = stamps }
    ∷ record { readings = 8001 ∷ []; stamps = stamps }
    ∷ []

three_messages :
    Runs compact compact_builders compact_builders-IsBuilders Producer.Kind.mixed 1 1000 3 []
      start.region rounds
      (run_producer compact_builders Producer.Kind.mixed 1 1000 3 start rounds)
three_messages =
    run_producer-IsProduced compact compact_builders compact_builders-IsBuilders Producer.Kind.mixed
      1 1000 3 [] start rounds start-IsProduced (omega arith)

stamps-IsClose : IsClose stamps
stamps-IsClose = record {
  sent = omega arith;
  exchanged = omega arith;
  later = omega arith;
  earlier = omega arith;
}

build-Says_example :
    let built = build compact_builders Producer.Kind.mixed no_trades stamps 7 (replicate 96 0) in
    Says stamps 7 (type_of_kind (choose Producer.Kind.mixed 7)) (take built.len built.buffer)
build-Says_example =
    build-Says Producer.Kind.mixed no_trades stamps 7 (replicate 96 0) stamps-IsClose (omega arith)
      refl

book_top_example :
    ((book_of stamps 7).bids.top_price_ticks ≡ (bbo_of stamps 7).bid_price_ticks)
    × ((book_of stamps 7).asks.top_price_ticks
        ≡ (bbo_of stamps 7).bid_price_ticks + (bbo_of stamps 7).spread_ticks)
    × ((book_of stamps 7).update_id ≡ (bbo_of stamps 7).update_id)
    × Descending (
        bid_prices
          (book_of stamps 7).bids.top_price_ticks
          (book_of stamps 7).bids.price_offset_ticks)
    × Ascending (
        ask_prices
          (book_of stamps 7).asks.top_price_ticks
          (book_of stamps 7).asks.price_offset_ticks)
book_top_example = book_of-bbo_of stamps stamps 7

messages-IsExact_example : IsExact no_trades stamps 7
messages-IsExact_example = messages-IsExact no_trades stamps 7 (omega arith)

abbrev seqs : List ℕ
seqs = 3 ∷ 6 ∷ []

two_trades :
    let t' = add_trades no_trades seqs in
    (t'.cumulative_quantity_lots ≡ u64 (0 + sum trade_quantity seqs))
    × (t'.cumulative_notional_tick_lots
        ≡ u64 (0 + sum (λ seq. mid_price_ticks seq * trade_quantity seq) seqs))
    × (t'.cumulative_trade_count ≡ u64 (0 + length seqs))
two_trades = add_trades-sum no_trades seqs (omega arith) (omega arith) (omega arith)

-- Arithmetic on numbers in place of bit patterns.
abbrev whole : Double
whole = record {
  literal = λ n d. n;
  of_u64 = λ n. n;
  to_i64 = λ n. n;
  add = λ a b. a + b;
  sub = λ a b. a + (2 ^ 64 - b);
  mul = λ a b. a * b;
}

whole-IsBuilders : IsBuilders raw (raw_builders whole)
whole-IsBuilders = raw_builders-IsBuilders whole
