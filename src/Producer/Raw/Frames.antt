-- ===== src/Producer/Raw/Frames.antt =====
-- The Raw builders write complete frames.
use low_latency_data_transfe.Base.{ℕ, ◌^◌, ◌<◌, ◌≡◌, refl, arith}
use low_latency_data_transfe.Bytes.{le_bytes, le_value}
use low_latency_data_transfe.Bytes.Order.{le_value-le_bytes}
use low_latency_data_transfe.Message.Raw.{
  raw, load_header, frame_size, sizeof_trade, sizeof_bbo, sizeof_order_book,
}
use low_latency_data_transfe.Message.Raw.Layout.{trade_bytes, bbo_bytes, order_book_bytes}
use low_latency_data_transfe.Producer.{IsBuilder, IsBuilders}
use low_latency_data_transfe.Producer.Published.{written-IsBuilt}
use low_latency_data_transfe.Producer.Raw.{
  Double, fill_header, trade_of, bbo_of, book_of, build_trade, build_bbo, build_book, raw_builders,
  level_of,
}

seq_id_bytes : (seq : ℕ) → seq < 2 ^ 64 → le_value (le_bytes 8 seq) ≡ seq
seq_id_bytes seq h = omega (arith, le_value-le_bytes 8 seq)

module _ (d : Double) where
  build_trade-IsBuilder : IsBuilder raw (build_trade d)
  unfolding load_header frame_size build_trade fill_header
  build_trade-IsBuilder t s seq buf h room =
      written-IsBuilt raw t seq sizeof_trade buf (trade_bytes (trade_of d s seq)) room (omega arith)
        (omega arith) (omega arith) (λ rest. refl) (λ rest. seq_id_bytes seq h)

  build_bbo-IsBuilder : IsBuilder raw (build_bbo d)
  unfolding load_header frame_size build_bbo fill_header
  build_bbo-IsBuilder t s seq buf h room =
      written-IsBuilt raw t seq sizeof_bbo buf (bbo_bytes (bbo_of d s seq)) room (omega arith)
        (omega arith) (omega arith) (λ rest. refl) (λ rest. seq_id_bytes seq h)

  build_book-IsBuilder : IsBuilder raw (build_book d)
  unfolding load_header frame_size build_book fill_header level_of
  build_book-IsBuilder t s seq buf h room =
      written-IsBuilt raw t seq sizeof_order_book buf (order_book_bytes (book_of d s seq)) room
        (omega arith) (omega arith) (omega arith) (λ rest. refl) (λ rest. seq_id_bytes seq h)

  -- Whatever floating-point arithmetic gives, each builder of the Raw profile leaves, for a number
  -- below 2^64 and in a buffer of the largest frame's size, a complete frame that carries the
  -- number, at the front of the buffer and of the size that it returns.
  pub raw_builders-IsBuilders : IsBuilders raw (raw_builders d)
  unfolding build_trade build_bbo build_book
  raw_builders-IsBuilders = record {
    build_trade = build_trade-IsBuilder;
    build_bbo = build_bbo-IsBuilder;
    build_book = build_book-IsBuilder;
  }
