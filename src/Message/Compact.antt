-- ===== src/Message/Compact.antt =====
-- harness/include/message_compact.hpp: the Compact profile, where the type implies the length.
pub mod Layout
use low_latency_data_transfe.Base.{
  ℕ, ◌≤◌, ◌+◌, ◌-◌, ◌^◌, ap, List, arith, ltb, ◌==◌, if◌then◌else◌, u64, sub64,
}
use low_latency_data_transfe.Bytes.{load_field}
use low_latency_data_transfe.Message.{Profile, IsProfile}
use low_latency_data_transfe.Message.Raw.{load_field-append}

-- `exchange_ts_delta_ns` is an `std::int32_t`, kept as its bit pattern.
pub record Header : Type 0 where
  pub seq_id : ℕ
  pub send_ts_ns : ℕ
  pub instrument : ℕ
  pub type : ℕ
  pub flags : ℕ
  pub exchange_ts_delta_ns : ℕ

-- `std::memcpy(&header, frame, sizeof(header))`
unfoldable pub load_header : List ℕ → Header
load_header frame = record {
  seq_id = load_field 0 8 frame;
  send_ts_ns = load_field 8 8 frame;
  instrument = load_field 16 2 frame;
  type = load_field 18 1 frame;
  flags = load_field 19 1 frame;
  exchange_ts_delta_ns = load_field 20 4 frame;
}

abbrev pub sizeof_trade : ℕ
sizeof_trade = 64

abbrev pub sizeof_bbo : ℕ
sizeof_bbo = 48

abbrev pub sizeof_order_book : ℕ
sizeof_order_book = 96

-- The values of `msg::Type`.
abbrev pub type_trade : ℕ
type_trade = 1

abbrev pub type_bbo : ℕ
type_bbo = 2

abbrev pub type_order_book : ℕ
type_order_book = 3

-- `frame_size(type)`: 0 for a type that there is not.
unfoldable pub frame_size_of_type : ℕ → ℕ
frame_size_of_type type =
    if type == type_trade
    then sizeof_trade
    else if type == type_bbo
    then sizeof_bbo
    else if type == type_order_book
    then sizeof_order_book
    else 0

-- `frame_size(header)`
unfoldable pub frame_size : Header → ℕ
unfolding frame_size_of_type
frame_size h = frame_size_of_type h.type

-- `exchange_ts_ns(header)`
unfoldable pub exchange_ts_ns : Header → ℕ
exchange_ts_ns h =
    if ltb h.exchange_ts_delta_ns (2 ^ 31)
    then sub64 h.send_ts_ns h.exchange_ts_delta_ns
    else u64 (h.send_ts_ns + (2 ^ 32 - h.exchange_ts_delta_ns))

abbrev pub compact : Profile
unfolding load_header frame_size
compact = record {
  seq_id = λ frame. (load_header frame).seq_id;
  frame_size = λ frame. frame_size (load_header frame);
  max_frame = sizeof_order_book;
}

pub compact-IsProfile : IsProfile compact
unfolding compact
compact-IsProfile = record {
  frame_size-append = λ xs ys h. ap frame_size_of_type (load_field-append 18 1 xs ys (omega arith));
  seq_id-append = λ xs ys h. load_field-append 0 8 xs ys (omega arith);
  room = omega arith;
}

-- A frame of the Compact profile has one of four sizes, by its type.
pub frame_size_of_type-le : (type : ℕ) → frame_size_of_type type ≤ sizeof_order_book
unfolding frame_size_of_type
frame_size_of_type-le type = ground arith
