-- ===== src/Producer/Compact.antt =====
-- The builders of the Compact profile. `send_ts_ns` is stamped after `exchange_ts_ns`, by
-- `fill_header`.
pub mod Frames
pub mod Fields
use low_latency_data_transfe.Base.{
  ℕ, ◌+◌, ◌-◌, ◌*◌, ◌%◌, ◌^◌, ◌<◌, ◌≤◌, ◌≡◌, refl, List, [], ◌∷◌, map, u16, u32, u64, sub64,
  if◌then◌else◌, ◌==◌, bit_and, arith, write_at,
}
use Prim.Native.Nat.{bit_or}
use low_latency_data_transfe.Message.Compact.{
  Header, load_header, type_trade, type_bbo, type_order_book, compact, exchange_ts_ns, sizeof_trade,
  sizeof_bbo, sizeof_order_book,
}
use low_latency_data_transfe.Message.Compact.Layout.{
  Trade, Bbo, Side, OrderBook, header_bytes, trade_bytes, bbo_bytes, order_book_bytes, IsHeader,
  load_header-header_bytes,
}
use low_latency_data_transfe.Producer.{CompactTradeState, Stamps, Builder, Builders, Built}

-- The constants of the header that the builders use.
abbrev pub btc_usdt_instrument : ℕ
btc_usdt_instrument = 0

abbrev pub flag_aggressor_sell : ℕ
flag_aggressor_sell = 1

abbrev pub flag_snapshot : ℕ
flag_snapshot = 16

abbrev pub tick_direction_shift : ℕ
tick_direction_shift = 5

-- `fill_header`. The difference of the times, an `std::int64_t`, is cut to 32 bits.
unfoldable pub fill_header : Stamps → ℕ → ℕ → ℕ → Header
fill_header s seq type flags = record {
  seq_id = seq;
  send_ts_ns = s.send_ts_ns;
  instrument = btc_usdt_instrument;
  type = type;
  flags = flags;
  exchange_ts_delta_ns = u32 (sub64 s.send_ts_ns s.exchange_ts_ns);
}

-- `flags` of a trade.
unfoldable pub trade_flags : ℕ → ℕ
trade_flags seq =
    let direction = seq % 4 * 2 ^ tick_direction_shift % 256 in
    if bit_and seq 1 == 0 then direction else bit_or direction flag_aggressor_sell

-- `6'500'000 + (seq % 500) * 50`
unfoldable pub mid_price_ticks : ℕ → ℕ
mid_price_ticks seq = u32 (6500000 + seq % 500 * 50)

unfoldable pub trade_quantity : ℕ → ℕ
trade_quantity seq = u32 (1 + seq % 100 * 10)

-- The three `+=` on `compact_trade_state`.
unfoldable pub add_trade : CompactTradeState → ℕ → CompactTradeState
unfolding mid_price_ticks trade_quantity
add_trade t seq = record {
  cumulative_quantity_lots = u64 (t.cumulative_quantity_lots + trade_quantity seq);
  cumulative_notional_tick_lots =
      u64 (t.cumulative_notional_tick_lots + u64 (mid_price_ticks seq * trade_quantity seq));
  cumulative_trade_count = u64 (t.cumulative_trade_count + 1);
}

unfoldable pub trade_of : CompactTradeState → Stamps → ℕ → Trade
unfolding add_trade fill_header trade_flags mid_price_ticks trade_quantity
trade_of t s seq =
    let t' = add_trade t seq in
    record {
      header = fill_header s seq type_trade (trade_flags seq);
      trade_id = u64 (100000 + seq);
      price_ticks = mid_price_ticks seq;
      quantity_lots = trade_quantity seq;
      cumulative_quantity_lots = t'.cumulative_quantity_lots;
      cumulative_notional_tick_lots = t'.cumulative_notional_tick_lots;
      cumulative_trade_count = t'.cumulative_trade_count;
    }

unfoldable pub build_trade : Builder
unfolding trade_of add_trade
build_trade t s seq buf = record {
  trade_state = add_trade t seq;
  buffer = write_at buf 0 (trade_bytes (trade_of t s seq));
  len = sizeof_trade;
}

unfoldable pub bbo_of : Stamps → ℕ → Bbo
unfolding fill_header mid_price_ticks
bbo_of s seq = record {
  header = fill_header s seq type_bbo 0;
  update_id = u64 (900000 + seq);
  bid_price_ticks = u32 (mid_price_ticks seq + 2 ^ 32 - 50);
  spread_ticks = 100;
  bid_size_lots = u16 (1500 + seq % 50 * 100);
  ask_size_lots = u16 (1500 + u64 (seq + 7) % 50 * 100);
  bid_order_count = u16 (3 + seq % 10);
  ask_order_count = u16 (3 + u64 (seq + 3) % 10);
  reserved = 0;
}

unfoldable pub build_bbo : Builder
unfolding bbo_of
build_bbo t s seq buf = record {
  trade_state = t;
  buffer = write_at buf 0 (bbo_bytes (bbo_of s seq));
  len = sizeof_bbo;
}

-- The levels of a side, `kBookDepth` of them; `shift` is 0 for the bids and 5 for the asks.
abbrev pub book_levels : List ℕ
book_levels = 0 ∷ 1 ∷ 2 ∷ 3 ∷ 4 ∷ []

unfoldable pub side_of : ℕ → ℕ → ℕ → Side
side_of top_price_ticks seq shift = record {
  top_price_ticks = top_price_ticks;
  price_offset_ticks = map (λ i. u16 ((i + 1) * 100)) (0 ∷ 1 ∷ 2 ∷ 3 ∷ []);
  size_lots = map (λ i. u16 (1000 + u64 (seq + i + shift) % 40 * 100)) book_levels;
  order_count = map (λ i. u16 (2 + u64 (seq + i + shift) % 8)) book_levels;
}

unfoldable pub book_of : Stamps → ℕ → OrderBook
unfolding fill_header mid_price_ticks side_of
book_of s seq = record {
  header = fill_header s seq type_order_book flag_snapshot;
  update_id = u64 (900000 + seq);
  bids = side_of (u32 (mid_price_ticks seq + 2 ^ 32 - 50)) seq 0;
  asks = side_of (u32 (mid_price_ticks seq + 50)) seq 5;
}

unfoldable pub build_book : Builder
unfolding book_of
build_book t s seq buf = record {
  trade_state = t;
  buffer = write_at buf 0 (order_book_bytes (book_of s seq));
  len = sizeof_order_book;
}

abbrev pub compact_builders : Builders
compact_builders = record {
  build_trade = build_trade;
  build_bbo = build_bbo;
  build_book = build_book;
}
