-- ===== src/Producer/Compact/Frames.antt =====
-- The Compact builders write complete frames, and the header says when the exchange stamped them.
use low_latency_data_transfe.Base.{
  ℕ, zero, suc, ◌+◌, ◌*◌, ◌%◌, ◌^◌, ◌<◌, ◌≤◌, ◌≡◌, refl, sym, ap, ◌∙◌, subst, List, ◌++◌, u32,
  sub64, ltb, arith, Bool-cases, inl, inr, length, take, drop, write_at, write_at_front,
  take-append,
}
use Prim.Native.Nat.{bit_or}
use low_latency_data_transfe.Bytes.{le_bytes, le_value}
use low_latency_data_transfe.Bytes.Order.{le_value-le_bytes}
use low_latency_data_transfe.Message.Compact.{
  load_header, frame_size, compact, exchange_ts_ns, type_trade, type_bbo, type_order_book,
  sizeof_trade, sizeof_bbo, sizeof_order_book,
}
use low_latency_data_transfe.Message.Compact.Layout.{
  header_bytes, trade_bytes, bbo_bytes, order_book_bytes, IsHeader, load_header-header_bytes,
}
use low_latency_data_transfe.Producer.Published.{written-IsBuilt}
use low_latency_data_transfe.Producer.{
  CompactTradeState, Stamps, IsBuilder, IsBuilders, Kind, build, build_kind, choose,
}
use low_latency_data_transfe.Producer.Compact.{
  fill_header, build_trade, build_bbo, build_book, compact_builders, trade_of, bbo_of, book_of,
  side_of, trade_flags, flag_snapshot, add_trade,
}

seq_id_bytes : (seq : ℕ) → seq < 2 ^ 64 → le_value (le_bytes 8 seq) ≡ seq
seq_id_bytes seq h = omega (arith, le_value-le_bytes 8 seq)

build_trade-IsBuilder : IsBuilder compact build_trade
unfolding load_header frame_size build_trade fill_header
build_trade-IsBuilder t s seq buf h room =
    written-IsBuilt compact (add_trade t seq) seq sizeof_trade buf (trade_bytes (trade_of t s seq))
      room (omega arith) (omega arith) (omega arith) (λ rest. refl) (λ rest. seq_id_bytes seq h)

build_bbo-IsBuilder : IsBuilder compact build_bbo
unfolding load_header frame_size build_bbo fill_header
build_bbo-IsBuilder t s seq buf h room =
    written-IsBuilt compact t seq sizeof_bbo buf (bbo_bytes (bbo_of s seq)) room (omega arith)
      (omega arith) (omega arith) (λ rest. refl) (λ rest. seq_id_bytes seq h)

build_book-IsBuilder : IsBuilder compact build_book
unfolding load_header frame_size build_book fill_header side_of
build_book-IsBuilder t s seq buf h room =
    written-IsBuilt compact t seq sizeof_order_book buf (order_book_bytes (book_of s seq)) room
      (omega arith) (omega arith) (omega arith) (λ rest. refl) (λ rest. seq_id_bytes seq h)

pub compact_builders-IsBuilders : IsBuilders compact compact_builders
compact_builders-IsBuilders = record {
  build_trade = build_trade-IsBuilder;
  build_bbo = build_bbo-IsBuilder;
  build_book = build_book-IsBuilder;
}

-- The times of a message, close enough for the difference to fit an `std::int32_t`.
pub record IsClose (s : Stamps) : Type 0 where
  pub sent : s.send_ts_ns < 2 ^ 64
  pub exchanged : s.exchange_ts_ns < 2 ^ 64
  pub later : s.send_ts_ns < s.exchange_ts_ns + 2 ^ 31
  pub earlier : s.exchange_ts_ns ≤ s.send_ts_ns + 2 ^ 31

fill_header-exchange :
    (s : Stamps) (seq type flags : ℕ)
    → IsClose s
    → exchange_ts_ns (fill_header s seq type flags) ≡ s.exchange_ts_ns
unfolding fill_header exchange_ts_ns
fill_header-exchange s seq type flags v =
    elim (Bool-cases (ltb (u32 (sub64 s.send_ts_ns s.exchange_ts_ns)) (2 ^ 31))) [
      | inl small ↦ rw small (ground (arith, small, v.sent, v.exchanged, v.later, v.earlier))
      | inr large ↦ rw large (ground (arith, large, v.sent, v.exchanged, v.later, v.earlier))
    ]

-- A direction of two bits and the aggressor's bit fit the flags.
with_aggressor-lt : (r : ℕ) → r < 4 → bit_or (r * 32 % 256) 1 < 256
with_aggressor-lt zero h = omega arith
with_aggressor-lt (suc zero) h = omega arith
with_aggressor-lt (suc (suc zero)) h = omega arith
with_aggressor-lt (suc (suc (suc zero))) h = omega arith
with_aggressor-lt (suc (suc (suc (suc r)))) h = absurd (omega arith)

trade_flags-lt : (seq : ℕ) → trade_flags seq < 256
unfolding trade_flags
trade_flags-lt seq = ground (arith, with_aggressor-lt (seq % 4))

fill_header-IsHeader :
    (s : Stamps) (seq type flags : ℕ)
    → IsClose s
    → seq < 2 ^ 64
    → type < 2 ^ 8
    → flags < 2 ^ 8
    → IsHeader (fill_header s seq type flags)
unfolding fill_header
fill_header-IsHeader s seq type flags v h ht hf = record {
  seq_id = h;
  send_ts_ns = v.sent;
  instrument = omega arith;
  type = ht;
  flags = hf;
  exchange_ts_delta_ns = omega arith;
}

-- What the header of a frame says, as the consumer reads it.
abbrev pub Says : Stamps → ℕ → ℕ → List ℕ → Type 0
Says s seq type frame =
    ((load_header frame).seq_id ≡ seq)
    × ((load_header frame).send_ts_ns ≡ s.send_ts_ns)
    × ((load_header frame).type ≡ type)
    × (exchange_ts_ns (load_header frame) ≡ s.exchange_ts_ns)

Says-fill_header :
    (s : Stamps) (seq type flags : ℕ) (rest : List ℕ)
    → IsClose s
    → seq < 2 ^ 64
    → type < 2 ^ 8
    → flags < 2 ^ 8
    → Says s seq type (header_bytes (fill_header s seq type flags) ++ rest)
unfolding fill_header
Says-fill_header s seq type flags rest v h ht hf =
    subst
      (λ x.
        (x.seq_id ≡ seq)
        × (x.send_ts_ns ≡ s.send_ts_ns)
        × (x.type ≡ type)
        × (exchange_ts_ns x ≡ s.exchange_ts_ns))
      (sym (
        load_header-header_bytes (fill_header s seq type flags) rest
          (fill_header-IsHeader s seq type flags v h ht hf)))
      (refl, refl, refl, fill_header-exchange s seq type flags v)

-- The type that a kind stands for at a sequence number.
abbrev pub type_of_kind : Kind → ℕ
type_of_kind Kind.trade = type_trade
type_of_kind Kind.bbo = type_bbo
type_of_kind Kind.book = type_order_book
type_of_kind Kind.mixed = type_order_book

-- The front of a frame that starts with this header.
Says-write_at :
    (s : Stamps) (seq type flags : ℕ) (buf rest : List ℕ)
    → IsClose s
    → seq < 2 ^ 64
    → type < 2 ^ 8
    → flags < 2 ^ 8
    → let bytes = header_bytes (fill_header s seq type flags) ++ rest in
      length bytes ≤ length buf → Says s seq type (take (length bytes) (write_at buf 0 bytes))
Says-write_at s seq type flags buf rest v h ht hf fits =
    subst (Says s seq type)
      (sym (
        ap (take (length bytes)) (write_at_front buf bytes fits)
        ∙ take-append bytes (drop (length bytes) buf) (length bytes) refl))
      (Says-fill_header s seq type flags rest v h ht hf)
  where
    bytes : List ℕ
    bytes = header_bytes (fill_header s seq type flags) ++ rest

build_kind-Says :
    (kind : Kind) (t : CompactTradeState) (s : Stamps) (seq : ℕ) (buf : List ℕ)
    → IsClose s
    → seq < 2 ^ 64
    → length buf ≡ 96
    → let built = build_kind compact_builders kind t s seq buf in
      Says s seq (type_of_kind kind) (take built.len built.buffer)
unfolding build_kind build_trade build_bbo build_book side_of
build_kind-Says Kind.trade t s seq buf v h room =
    Says-write_at s seq type_trade (trade_flags seq) buf _ v h (omega arith)
      (omega (arith, trade_flags-lt seq)) (omega arith)
build_kind-Says Kind.bbo t s seq buf v h room =
    Says-write_at s seq type_bbo 0 buf _ v h (omega arith) (omega arith) (omega arith)
build_kind-Says Kind.book t s seq buf v h room =
    Says-write_at s seq type_order_book flag_snapshot buf _ v h (omega arith) (omega arith)
      (omega arith)
build_kind-Says Kind.mixed t s seq buf v h room =
    Says-write_at s seq type_order_book flag_snapshot buf _ v h (omega arith) (omega arith)
      (omega arith)

-- The frame that the Compact builders write into a buffer of 96 bytes has in its header the number,
-- the time of sending and the type chosen for the number, and the exchange's time is read back from
-- it, the two times being less than 2^31 ns apart and below 2^64.
pub build-Says :
    (kind : Kind) (t : CompactTradeState) (s : Stamps) (seq : ℕ) (buf : List ℕ)
    → IsClose s
    → seq < 2 ^ 64
    → length buf ≡ 96
    → let built = build compact_builders kind t s seq buf in
      Says s seq (type_of_kind (choose kind seq)) (take built.len built.buffer)
unfolding build
build-Says kind t s seq buf = build_kind-Says (choose kind seq) t s seq buf
