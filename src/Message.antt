-- ===== src/Message.antt =====
-- harness/include/message.h: the message profile, chosen when the program is built. The transport
-- uses of a profile only what a frame's common header says: its sequence number and its size.
pub mod Raw
pub mod Compact
use low_latency_data_transfe.Base.{ℕ, ◌≤◌, ◌≡◌, List, ◌++◌, length}

-- `sizeof(msg::Header)`, the same in both profiles.
abbrev pub sizeof_header : ℕ
sizeof_header = 24

-- `seq_id` and `frame_size` read the header at the front of the bytes; `max_frame` is `kMaxFrame`.
pub record Profile : Type 0 where
  pub seq_id : List ℕ → ℕ
  pub frame_size : List ℕ → ℕ
  pub max_frame : ℕ

-- What the transport relies on: only the header's bytes count, and a batch has room for one frame.
pub record IsProfile (p : Profile) : Type 0 where
  pub frame_size-append :
      (xs ys : List ℕ) → sizeof_header ≤ length xs → p.frame_size (xs ++ ys) ≡ p.frame_size xs
  pub seq_id-append :
      (xs ys : List ℕ) → sizeof_header ≤ length xs → p.seq_id (xs ++ ys) ≡ p.seq_id xs
  pub room : p.max_frame ≤ 1450
