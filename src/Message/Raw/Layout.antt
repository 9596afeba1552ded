-- ===== src/Message/Raw/Layout.antt =====
-- The messages of harness/include/message_raw.hpp as they are in memory, up to their last member. A
-- `double` is its bit pattern; the bytes that `alignas(64)` adds behind the members are not written.
use low_latency_data_transfe.Base.{ℕ, List, ◌++◌, map, concat}
use low_latency_data_transfe.Bytes.{le_bytes}
use low_latency_data_transfe.Message.Raw.{Header}

pub record Trade : Type 0 where
  pub header : Header
  pub symbol : List ℕ
  pub venue : List ℕ
  pub base_currency : List ℕ
  pub quote_currency : List ℕ
  pub trade_id : ℕ
  pub buyer_order_id : ℕ
  pub seller_order_id : ℕ
  pub exchange_ts_ns : ℕ
  pub match_engine_ts_ns : ℕ
  pub price : ℕ
  pub quantity : ℕ
  pub notional : ℕ
  pub price_ticks : ℕ
  pub quantity_lots : ℕ
  pub tick_direction : ℕ
  pub aggressor_side : ℕ
  pub is_block_trade : ℕ
  pub is_rpi : ℕ
  pub is_liquidation : ℕ
  pub flags : ℕ
  pub reserved : List ℕ

pub record Bbo : Type 0 where
  pub header : Header
  pub symbol : List ℕ
  pub venue : List ℕ
  pub update_id : ℕ
  pub exchange_ts_ns : ℕ
  pub match_engine_ts_ns : ℕ
  pub bid_price : ℕ
  pub bid_size : ℕ
  pub ask_price : ℕ
  pub ask_size : ℕ
  pub bid_price_ticks : ℕ
  pub ask_price_ticks : ℕ
  pub bid_size_lots : ℕ
  pub ask_size_lots : ℕ
  pub bid_order_count : ℕ
  pub ask_order_count : ℕ
  pub flags : ℕ
  pub reserved : List ℕ

pub record Level : Type 0 where
  pub price : ℕ
  pub size : ℕ
  pub price_ticks : ℕ
  pub size_lots : ℕ
  pub order_count : ℕ
  pub reserved : ℕ

pub record OrderBook : Type 0 where
  pub header : Header
  pub symbol : List ℕ
  pub venue : List ℕ
  pub update_id : ℕ
  pub prev_update_id : ℕ
  pub exchange_ts_ns : ℕ
  pub match_engine_ts_ns : ℕ
  pub bids : List Level
  pub asks : List Level
  pub checksum : ℕ
  pub is_snapshot : ℕ
  pub flags : ℕ
  pub reserved : List ℕ

abbrev pub header_bytes : Header → List ℕ
header_bytes h =
    le_bytes 8 h.seq_id
    ++ (le_bytes 8 h.send_ts_ns
        ++ (le_bytes 2 h.type ++ (le_bytes 2 h.version ++ le_bytes 4 h.body_len)))

abbrev pub trade_bytes : Trade → List ℕ
trade_bytes m =
    header_bytes m.header
    ++ (m.symbol
        ++ (m.venue
            ++ (m.base_currency
                ++ (m.quote_currency
                    ++ (le_bytes 8 m.trade_id
                        ++ (le_bytes 8 m.buyer_order_id
                            ++ (le_bytes 8 m.seller_order_id
                                ++ (le_bytes 8 m.exchange_ts_ns
                                    ++ (le_bytes 8 m.match_engine_ts_ns
                                        ++ (le_bytes 8 m.price
                                            ++ (le_bytes 8 m.quantity
                                                ++ (le_bytes 8 m.notional
                                                    ++ (le_bytes 8 m.price_ticks
                                                        ++ (le_bytes 8 m.quantity_lots
                                                            ++ (le_bytes 4 m.tick_direction
                                                            ++ (le_bytes 1 m.aggressor_side
                                                            ++ (le_bytes 1 m.is_block_trade
                                                            ++ (le_bytes 1 m.is_rpi
                                                            ++ (le_bytes 1 m.is_liquidation
                                                            ++ (le_bytes 1 m.flags
                                                            ++ m.reserved))))))))))))))))))))

abbrev pub bbo_bytes : Bbo → List ℕ
bbo_bytes m =
    header_bytes m.header
    ++ (m.symbol
        ++ (m.venue
            ++ (le_bytes 8 m.update_id
                ++ (le_bytes 8 m.exchange_ts_ns
                    ++ (le_bytes 8 m.match_engine_ts_ns
                        ++ (le_bytes 8 m.bid_price
                            ++ (le_bytes 8 m.bid_size
                                ++ (le_bytes 8 m.ask_price
                                    ++ (le_bytes 8 m.ask_size
                                        ++ (le_bytes 8 m.bid_price_ticks
                                            ++ (le_bytes 8 m.ask_price_ticks
                                                ++ (le_bytes 8 m.bid_size_lots
                                                    ++ (le_bytes 8 m.ask_size_lots
                                                        ++ (le_bytes 4 m.bid_order_count
                                                            ++ (le_bytes 4 m.ask_order_count
                                                            ++ (le_bytes 1 m.flags
                                                            ++ m.reserved))))))))))))))))

abbrev pub level_bytes : Level → List ℕ
level_bytes l =
    le_bytes 8 l.price
    ++ (le_bytes 8 l.size
        ++ (le_bytes 8 l.price_ticks
            ++ (le_bytes 8 l.size_lots ++ (le_bytes 4 l.order_count ++ le_bytes 4 l.reserved))))

abbrev pub order_book_bytes : OrderBook → List ℕ
order_book_bytes m =
    header_bytes m.header
    ++ (m.symbol
        ++ (m.venue
            ++ (le_bytes 8 m.update_id
                ++ (le_bytes 8 m.prev_update_id
                    ++ (le_bytes 8 m.exchange_ts_ns
                        ++ (le_bytes 8 m.match_engine_ts_ns
                            ++ (concat (map level_bytes m.bids)
                                ++ (concat (map level_bytes m.asks)
                                    ++ (le_bytes 4 m.checksum
                                        ++ (le_bytes 1 m.is_snapshot
                                            ++ (le_bytes 1 m.flags ++ m.reserved)))))))))))
