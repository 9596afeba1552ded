-- ===== src/Message/Compact/Layout.antt =====
-- The messages of harness/include/message_compact.hpp as they are in memory. No struct has padding;
-- an array is the list of its elements.
use low_latency_data_transfe.Base.{ℕ, ◌^◌, ◌<◌, ◌≡◌, List, ◌++◌, map, arith}
use low_latency_data_transfe.Base.{concat}
use low_latency_data_transfe.Bytes.{le_bytes, le_value}
use low_latency_data_transfe.Bytes.Order.{le_value-le_bytes}
use low_latency_data_transfe.Message.Compact.{Header, load_header}

pub record Trade : Type 0 where
  pub header : Header
  pub trade_id : ℕ
  pub price_ticks : ℕ
  pub quantity_lots : ℕ
  pub cumulative_quantity_lots : ℕ
  pub cumulative_notional_tick_lots : ℕ
  pub cumulative_trade_count : ℕ

pub record Bbo : Type 0 where
  pub header : Header
  pub update_id : ℕ
  pub bid_price_ticks : ℕ
  pub spread_ticks : ℕ
  pub bid_size_lots : ℕ
  pub ask_size_lots : ℕ
  pub bid_order_count : ℕ
  pub ask_order_count : ℕ
  pub reserved : ℕ

pub record Side : Type 0 where
  pub top_price_ticks : ℕ
  pub price_offset_ticks : List ℕ
  pub size_lots : List ℕ
  pub order_count : List ℕ

pub record OrderBook : Type 0 where
  pub header : Header
  pub update_id : ℕ
  pub bids : Side
  pub asks : Side

abbrev pub header_bytes : Header → List ℕ
header_bytes h =
    le_bytes 8 h.seq_id
    ++ (le_bytes 8 h.send_ts_ns
        ++ (le_bytes 2 h.instrument
            ++ (le_bytes 1 h.type ++ (le_bytes 1 h.flags ++ le_bytes 4 h.exchange_ts_delta_ns))))

abbrev pub trade_bytes : Trade → List ℕ
trade_bytes t =
    header_bytes t.header
    ++ (le_bytes 8 t.trade_id
        ++ (le_bytes 4 t.price_ticks
            ++ (le_bytes 4 t.quantity_lots
                ++ (le_bytes 8 t.cumulative_quantity_lots
                    ++ (le_bytes 8 t.cumulative_notional_tick_lots
                        ++ le_bytes 8 t.cumulative_trade_count)))))

abbrev pub bbo_bytes : Bbo → List ℕ
bbo_bytes b =
    header_bytes b.header
    ++ (le_bytes 8 b.update_id
        ++ (le_bytes 4 b.bid_price_ticks
            ++ (le_bytes 2 b.spread_ticks
                ++ (le_bytes 2 b.bid_size_lots
                    ++ (le_bytes 2 b.ask_size_lots
                        ++ (le_bytes 2 b.bid_order_count
                            ++ (le_bytes 2 b.ask_order_count ++ le_bytes 2 b.reserved)))))))

abbrev pub side_bytes : Side → List ℕ
side_bytes s =
    le_bytes 4 s.top_price_ticks
    ++ (concat (map (le_bytes 2) s.price_offset_ticks)
        ++ (concat (map (le_bytes 2) s.size_lots) ++ concat (map (le_bytes 2) s.order_count)))

abbrev pub order_book_bytes : OrderBook → List ℕ
order_book_bytes o =
    header_bytes o.header ++ (le_bytes 8 o.update_id ++ (side_bytes o.bids ++ side_bytes o.asks))

-- Every field lies in its C++ type.
pub record IsHeader (h : Header) : Type 0 where
  pub seq_id : h.seq_id < 2 ^ 64
  pub send_ts_ns : h.send_ts_ns < 2 ^ 64
  pub instrument : h.instrument < 2 ^ 16
  pub type : h.type < 2 ^ 8
  pub flags : h.flags < 2 ^ 8
  pub exchange_ts_delta_ns : h.exchange_ts_delta_ns < 2 ^ 32

-- A header that was stored is loaded as it was, whatever follows it.
pub load_header-header_bytes :
    (h : Header) (rest : List ℕ) → IsHeader h → load_header (header_bytes h ++ rest) ≡ h
unfolding load_header
load_header-header_bytes h rest v = λ i. record {
  seq_id = seq i;
  send_ts_ns = sent i;
  instrument = instrument i;
  type = type i;
  flags = flags i;
  exchange_ts_delta_ns = delta i;
}
  where
    seq : le_value (le_bytes 8 h.seq_id) ≡ h.seq_id
    seq = omega (arith, le_value-le_bytes 8 h.seq_id, v.seq_id)

    sent : le_value (le_bytes 8 h.send_ts_ns) ≡ h.send_ts_ns
    sent = omega (arith, le_value-le_bytes 8 h.send_ts_ns, v.send_ts_ns)

    instrument : le_value (le_bytes 2 h.instrument) ≡ h.instrument
    instrument = omega (arith, le_value-le_bytes 2 h.instrument, v.instrument)

    type : le_value (le_bytes 1 h.type) ≡ h.type
    type = omega (arith, le_value-le_bytes 1 h.type, v.type)

    flags : le_value (le_bytes 1 h.flags) ≡ h.flags
    flags = omega (arith, le_value-le_bytes 1 h.flags, v.flags)

    delta : le_value (le_bytes 4 h.exchange_ts_delta_ns) ≡ h.exchange_ts_delta_ns
    delta = omega (arith, le_value-le_bytes 4 h.exchange_ts_delta_ns, v.exchange_ts_delta_ns)
