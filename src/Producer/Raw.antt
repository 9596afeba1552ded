-- ===== src/Producer/Raw.antt =====
-- The builders of the Raw profile. Floating-point arithmetic is a parameter.
pub mod Frames
use low_latency_data_transfe.Base.{
  ℕ, ◌+◌, ◌-◌, ◌*◌, ◌%◌, ◌^◌, List, [], ◌∷◌, ◌++◌, map, u32, u64, bit_and, write_at, replicate,
  take, set, sub64,
}
use low_latency_data_transfe.Message.Raw.{Header, sizeof_trade, sizeof_bbo, sizeof_order_book}
use low_latency_data_transfe.Message.Raw.Layout.{
  Trade, Bbo, Level, OrderBook, trade_bytes, bbo_bytes, order_book_bytes,
}
use low_latency_data_transfe.Producer.{CompactTradeState, Stamps, Builder, Builders, Built}

-- Arithmetic on the bit patterns of `double`: a literal `n / 10^d`, the conversions from
-- `std::uint64_t` and to `std::int64_t`, and the operations.
pub record Double : Type 0 where
  pub literal : ℕ → ℕ → ℕ
  pub of_u64 : ℕ → ℕ
  pub to_i64 : ℕ → ℕ
  pub add : ℕ → ℕ → ℕ
  pub sub : ℕ → ℕ → ℕ
  pub mul : ℕ → ℕ → ℕ

-- `set_str`: `std::strncpy` pads with zeros, and the last character is made one.
abbrev pub set_str : ℕ → List ℕ → List ℕ
set_str cap src = set (take cap (src ++ replicate cap 0)) (cap - 1) 0

-- "BTCUSDT", "BINANCE", "BTC" and "USDT".
abbrev pub btcusdt : List ℕ
btcusdt = 66 ∷ 84 ∷ 67 ∷ 85 ∷ 83 ∷ 68 ∷ 84 ∷ []

abbrev pub binance : List ℕ
binance = 66 ∷ 73 ∷ 78 ∷ 65 ∷ 78 ∷ 67 ∷ 69 ∷ []

abbrev pub btc : List ℕ
btc = 66 ∷ 84 ∷ 67 ∷ []

abbrev pub usdt : List ℕ
usdt = 85 ∷ 83 ∷ 68 ∷ 84 ∷ []

-- `fill_header`
unfoldable pub fill_header : Stamps → ℕ → ℕ → ℕ → Header
fill_header s seq type body_len = record {
  seq_id = seq;
  send_ts_ns = s.send_ts_ns;
  type = type;
  version = 1;
  body_len = body_len;
}

module _ (d : Double) where
  -- `65000.0 + static_cast<double>(seq % 500) * 0.5`
  unfoldable pub mid : ℕ → ℕ
  mid seq = d.add (d.literal 65000 0) (d.mul (d.of_u64 (seq % 500)) (d.literal 5 1))

  -- `static_cast<std::int64_t>(x * scale)`
  unfoldable pub scaled : ℕ → ℕ → ℕ
  scaled x scale = d.to_i64 (d.mul x (d.literal scale 0))

  unfoldable pub trade_of : Stamps → ℕ → Trade
  unfolding fill_header mid scaled
  trade_of s seq =
      let price = mid seq in
      let quantity = d.add (d.literal 1 3) (d.mul (d.of_u64 (seq % 100)) (d.literal 1 2)) in
      record {
        header = fill_header s seq 1 sizeof_trade;
        symbol = set_str 16 btcusdt;
        venue = set_str 16 binance;
        base_currency = set_str 8 btc;
        quote_currency = set_str 8 usdt;
        trade_id = u64 (100000 + seq);
        buyer_order_id = u64 (500000 + seq * 2);
        seller_order_id = u64 (500001 + seq * 2);
        exchange_ts_ns = s.exchange_ts_ns;
        match_engine_ts_ns = s.exchange_ts_ns;
        price = price;
        quantity = quantity;
        notional = d.mul price quantity;
        price_ticks = scaled price 100;
        quantity_lots = scaled quantity 1000;
        tick_direction = seq % 4;
        aggressor_side = bit_and seq 1;
        is_block_trade = 0;
        is_rpi = 0;
        is_liquidation = 0;
        flags = 0;
        reserved = replicate 19 0;
      }

  unfoldable pub build_trade : Builder
  unfolding trade_of
  build_trade t s seq buf = record {
    trade_state = t;
    buffer = write_at buf 0 (trade_bytes (trade_of s seq));
    len = sizeof_trade;
  }

  -- `1.5 + static_cast<double>(n % 50) * 0.1`
  unfoldable pub bbo_size : ℕ → ℕ
  bbo_size n = d.add (d.literal 15 1) (d.mul (d.of_u64 (n % 50)) (d.literal 1 1))

  unfoldable pub bbo_of : Stamps → ℕ → Bbo
  unfolding fill_header mid scaled bbo_size
  bbo_of s seq =
      let bid_price = d.sub (mid seq) (d.literal 5 1) in
      let ask_price = d.add (mid seq) (d.literal 5 1) in
      let bid_size = bbo_size seq in
      let ask_size = bbo_size (u64 (seq + 7)) in
      record {
        header = fill_header s seq 2 sizeof_bbo;
        symbol = set_str 16 btcusdt;
        venue = set_str 16 binance;
        update_id = u64 (900000 + seq);
        exchange_ts_ns = s.exchange_ts_ns;
        match_engine_ts_ns = s.exchange_ts_ns;
        bid_price = bid_price;
        bid_size = bid_size;
        ask_price = ask_price;
        ask_size = ask_size;
        bid_price_ticks = scaled bid_price 100;
        ask_price_ticks = scaled ask_price 100;
        bid_size_lots = scaled bid_size 1000;
        ask_size_lots = scaled ask_size 1000;
        bid_order_count = u32 (3 + seq % 10);
        ask_order_count = u32 (3 + u64 (seq + 3) % 10);
        flags = 0;
        reserved = replicate 23 0;
      }

  unfoldable pub build_bbo : Builder
  unfolding bbo_of
  build_bbo t s seq buf = record {
    trade_state = t;
    buffer = write_at buf 0 (bbo_bytes (bbo_of s seq));
    len = sizeof_bbo;
  }

  -- A level with this price, `n` being `seq + i` or `seq + i + 5`.
  unfoldable pub level_of : ℕ → ℕ → Level
  unfolding scaled
  level_of price n =
      let size = d.add (d.literal 10 1) (d.mul (d.of_u64 (n % 40)) (d.literal 1 1)) in
      record {
        price = price;
        size = size;
        price_ticks = scaled price 100;
        size_lots = scaled size 1000;
        order_count = u32 (2 + n % 8);
        reserved = 0;
      }

  unfoldable pub book_of : Stamps → ℕ → OrderBook
  unfolding fill_header mid level_of
  book_of s seq =
      let update_id = u64 (900000 + seq) in
      record {
        header = fill_header s seq 3 sizeof_order_book;
        symbol = set_str 16 btcusdt;
        venue = set_str 16 binance;
        update_id = update_id;
        prev_update_id = sub64 update_id 1;
        exchange_ts_ns = s.exchange_ts_ns;
        match_engine_ts_ns = s.exchange_ts_ns;
        bids =
            map
              (λ i. level_of (d.sub (d.sub (mid seq) (d.literal 5 1)) (d.of_u64 i)) (u64 (seq + i)))
              (0 ∷ 1 ∷ 2 ∷ 3 ∷ 4 ∷ []);
        asks =
            map
              (λ i.
                level_of (d.add (d.add (mid seq) (d.literal 5 1)) (d.of_u64 i)) (u64 (seq + i + 5)))
              (0 ∷ 1 ∷ 2 ∷ 3 ∷ 4 ∷ []);
        checksum = u32 (seq * 2654435761);
        is_snapshot = 1;
        flags = 0;
        reserved = replicate 26 0;
      }

  unfoldable pub build_book : Builder
  unfolding book_of
  build_book t s seq buf = record {
    trade_state = t;
    buffer = write_at buf 0 (order_book_bytes (book_of s seq));
    len = sizeof_order_book;
  }

  abbrev pub raw_builders : Builders
  unfolding build_trade build_bbo build_book
  raw_builders = record {
    build_trade = build_trade;
    build_bbo = build_bbo;
    build_book = build_book;
  }
