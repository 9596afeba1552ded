-- ===== src/Builder.antt =====
-- src/raw_data_packet_builder.cpp: one Data packet built in place, frame after frame. The output is
-- the memory of `capacity_` bytes; the pointers `write_pos_` and `output_` are the offset between them.
pub mod Header
pub mod Image
use low_latency_data_transfe.Base.{
  ℕ, zero, suc, ◌+◌, ◌-◌, ◌^◌, ◌%◌, List, [], ◌∷◌, Option, none, some, Bool, take, ltb,
  if◌then◌else◌, write_at, u16, u32, sub64,
}
use low_latency_data_transfe.Bytes.{write_sizeof_t_be}

-- `ValidatedSourceFrameView` without its `data`: the pointer is what the functions below take beside it.
pub record SourceFrameView : Type 0 where
  pub frame_size : ℕ
  pub source_seq_id : ℕ
  pub begins_after_source_gap : Bool

-- `CanonicalDataPacketView`; `bytes` is the memory from the pointer `data` on.
pub record CanonicalDataPacketView : Type 0 where
  pub bytes : List ℕ
  pub packet_size : ℕ
  pub data_seq : ℕ
  pub record_count : ℕ

pub data RawDataPacketBuildStatus : Type 0 where
  ok output_too_small : RawDataPacketBuildStatus

pub record RawDataPacketBuilder : Type 0 where
  pub output : List ℕ
  pub write_pos : ℕ
  pub remaining_payload_capacity : ℕ
  pub data_seq : ℕ
  pub record_count : ℕ

abbrev pub data_header_size : ℕ
data_header_size = 22

abbrev pub magic_lldt : ℕ
magic_lldt = 0x4c4c4454

abbrev pub protocol_version : ℕ
protocol_version = 1

-- The constructor.
unfoldable pub raw_data_packet_builder :
    List ℕ → ℕ → ℕ → List ℕ → SourceFrameView → RawDataPacketBuilder
raw_data_packet_builder output capacity data_seq frame_data first_frame = record {
  output = write_at output data_header_size (take first_frame.frame_size frame_data);
  write_pos = data_header_size + first_frame.frame_size;
  remaining_payload_capacity = sub64 (sub64 capacity data_header_size) first_frame.frame_size;
  data_seq = data_seq;
  record_count = 1;
}

unfoldable pub try_append :
    RawDataPacketBuilder
    → List ℕ
    → SourceFrameView
    → RawDataPacketBuildStatus × RawDataPacketBuilder
try_append b frame_data frame =
    if ltb b.remaining_payload_capacity frame.frame_size then (output_too_small, b) else (
      ok,
      record b {
        output = write_at b.output b.write_pos (take frame.frame_size frame_data);
        write_pos = b.write_pos + frame.frame_size;
        remaining_payload_capacity = b.remaining_payload_capacity - frame.frame_size;
        record_count = u16 (b.record_count + 1);
      },
    )

-- `for (i = 0; i < 5; ++i) offset += writeSizeofTBE(output + offset, padding_byte)`
unfoldable pub write_padding : ℕ → List ℕ → ℕ → List ℕ × ℕ
write_padding zero output offset = (output, offset)
write_padding (suc n) output offset =
    let (o, next) = write_sizeof_t_be output offset 1 0 in write_padding n o next

unfoldable pub write_lldt_header : List ℕ → ℕ → ℕ → List ℕ
unfolding write_padding
write_lldt_header output data_seq record_count =
    let (o₁, p₁) = write_sizeof_t_be output 0 4 magic_lldt in
    let (o₂, p₂) = write_sizeof_t_be o₁ p₁ 1 protocol_version in
    let (o₃, p₃) = write_sizeof_t_be o₂ p₂ 2 data_header_size in
    let (o₄, p₄) = write_sizeof_t_be o₃ p₃ 8 data_seq in
    let (o₅, p₅) = write_sizeof_t_be o₄ p₄ 2 record_count in (write_padding 5 o₅ p₅).0

unfoldable pub finalize : RawDataPacketBuilder → CanonicalDataPacketView
finalize b = record {
  bytes = write_lldt_header b.output b.data_seq b.record_count;
  packet_size = b.write_pos;
  data_seq = b.data_seq;
  record_count = b.record_count;
}

-- `DATA_HEADER_SIZE + frame_view.frame_size` is an `std::uint32_t`.
unfoldable pub build_canonical :
    List ℕ
    → ℕ
    → ℕ
    → List ℕ
    → SourceFrameView
    → RawDataPacketBuildStatus × Option CanonicalDataPacketView
build_canonical output capacity data_seq frame_data frame =
    if ltb capacity (u32 (data_header_size + frame.frame_size))
    then (output_too_small, none)
    else (ok, some (finalize (raw_data_packet_builder output capacity data_seq frame_data frame)))
