-- ===== src/Message/Raw.antt =====
-- harness/include/message_raw.hpp: the Raw profile, whose header carries the frame's length.
pub mod Layout
use low_latency_data_transfe.Base.{
  ℕ, ◌≤◌, ◌+◌, ◌≡◌, ap, ◌∙◌, List, ◌++◌, length, take, drop, arith, take-append_le, drop-append_le,
  length-drop,
}
use low_latency_data_transfe.Bytes.{le_value, load_field}
use low_latency_data_transfe.Message.{Profile, IsProfile}

pub record Header : Type 0 where
  pub seq_id : ℕ
  pub send_ts_ns : ℕ
  pub type : ℕ
  pub version : ℕ
  pub body_len : ℕ

-- `std::memcpy(&header, frame, sizeof(header))`
unfoldable pub load_header : List ℕ → Header
load_header frame = record {
  seq_id = load_field 0 8 frame;
  send_ts_ns = load_field 8 8 frame;
  type = load_field 16 2 frame;
  version = load_field 18 2 frame;
  body_len = load_field 20 4 frame;
}

-- `frame_size(header)`
unfoldable pub frame_size : Header → ℕ
frame_size h = h.body_len

-- `sizeof` of the messages.
abbrev pub sizeof_trade : ℕ
sizeof_trade = 192

abbrev pub sizeof_bbo : ℕ
sizeof_bbo = 192

abbrev pub sizeof_order_book : ℕ
sizeof_order_book = 576

abbrev pub raw : Profile
unfolding load_header frame_size
raw = record {
  seq_id = λ frame. (load_header frame).seq_id;
  frame_size = λ frame. frame_size (load_header frame);
  max_frame = sizeof_order_book;
}

-- A field inside the front part does not depend on what follows it.
pub load_field-append :
    (offset size : ℕ) (xs ys : List ℕ)
    → offset + size ≤ length xs
    → load_field offset size (xs ++ ys) ≡ load_field offset size xs
load_field-append offset size xs ys h =
    ap (λ t. le_value (take size t)) (drop-append_le xs ys offset (omega arith))
    ∙ ap le_value (take-append_le (drop offset xs) ys size (omega (arith, length-drop offset xs)))

pub raw-IsProfile : IsProfile raw
unfolding raw
raw-IsProfile = record {
  frame_size-append = λ xs ys h. load_field-append 20 4 xs ys (omega arith);
  seq_id-append = λ xs ys h. load_field-append 0 8 xs ys (omega arith);
  room = omega arith;
}
