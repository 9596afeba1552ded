-- ===== src/Tests/Packets.antt =====
-- Builder, parser and writer at a packet of two frames.
use low_latency_data_transfe.Base.{
  ℕ, ◌+◌, ◌≡◌, ◌≤◌, refl, [], ◌∷◌, ◌++◌, arith, replicate, take, drop, concat, some, false, none,
}
use low_latency_data_transfe.Builder.{
  SourceFrameView, RawDataPacketBuilder, CanonicalDataPacketView, raw_data_packet_builder,
  try_append, finalize, build_canonical,
}
use low_latency_data_transfe.Builder.Header.{header_bytes, write_lldt_header_lem}
use low_latency_data_transfe.Builder.Image.{
  Builds, raw_data_packet_builder-Builds, try_append-Builds, finalize-image,
}
use low_latency_data_transfe.Builder
use low_latency_data_transfe.Parser.{
  Mbuf, try_parse_canonical_data_packet, starts_with, data_prefix,
}
use low_latency_data_transfe.Parser.Round.{parse-header_bytes, parse_sound}
use low_latency_data_transfe.Message.Compact.{compact, compact-IsProfile, load_header, frame_size}
use low_latency_data_transfe.Ring.Window.{IsRing}
use low_latency_data_transfe.Receiver.Writer.{write, write-IsRing}
use low_latency_data_transfe.Tests.Data.{
  bbo, bbo-IsFrame, ring₁, ring₁-IsRing, little_endian, little_endian-IsHostOrder, swap16, swap64,
}

abbrev view : ℕ → SourceFrameView
view n = record { frame_size = 48; source_seq_id = n; begins_after_source_gap = false }

abbrev one_frame : RawDataPacketBuilder
one_frame = raw_data_packet_builder (replicate 200 0) 200 5 (bbo 7) (view 7)

abbrev two_frames : RawDataPacketBuilder
two_frames = (try_append one_frame (bbo 8) (view 8)).1

one_frame-Builds : Builds 200 5 (bbo 7 ∷ []) one_frame
one_frame-Builds =
    raw_data_packet_builder-Builds 200 5 (bbo 7) (view 7) (replicate 200 0) refl (omega arith)
      (omega arith) (omega arith)

two_frames-Builds : Builds 200 5 (bbo 7 ∷ bbo 8 ∷ []) two_frames
unfolding raw_data_packet_builder
two_frames-Builds =
    try_append-Builds 200 5 (bbo 8) (view 8) (bbo 7 ∷ []) one_frame one_frame-Builds (omega arith)
      (omega arith)

three_appended :
    Builds 200 5 (bbo 7 ∷ bbo 8 ∷ bbo 9 ∷ []) (try_append two_frames (bbo 9) (view 9)).1
unfolding raw_data_packet_builder try_append
three_appended =
    try_append-Builds 200 5 (bbo 9) (view 9) (bbo 7 ∷ bbo 8 ∷ []) two_frames two_frames-Builds
      (omega arith) (omega arith)

finalize-image_example :
    take (finalize two_frames).packet_size (finalize two_frames).bytes
    ≡ header_bytes 5 2 ++ concat (bbo 7 ∷ bbo 8 ∷ [])
finalize-image_example = finalize-image 200 5 (bbo 7 ∷ bbo 8 ∷ []) two_frames two_frames-Builds

-- The third frame of 96 bytes finds 82 left.
third_refused :
    (try_append two_frames
      (replicate 96 0)
      (record { frame_size = 96; source_seq_id = 9; begins_after_source_gap = false })).0
    ≡ Builder.RawDataPacketBuildStatus.output_too_small
unfolding try_append raw_data_packet_builder
third_refused = refl

build_canonical_small :
    build_canonical (replicate 60 0) 60 5 (bbo 7) (view 7)
    ≡ (Builder.RawDataPacketBuildStatus.output_too_small, none)
unfolding build_canonical
build_canonical_small = refl

write_lldt_header_example :
    Builder.write_lldt_header (replicate 30 255) 258 2
    ≡ header_bytes 258 2 ++ drop 22 (replicate 30 255)
write_lldt_header_example = write_lldt_header_lem (replicate 30 255) 258 2 (omega arith)

abbrev arrived : Mbuf
arrived = record { data_len = 112; bytes = replicate 42 0 ++ (header_bytes 5 1 ++ bbo 7) }

abbrev arrived_view : CanonicalDataPacketView
arrived_view = record {
  bytes = header_bytes 5 1 ++ bbo 7;
  packet_size = 70;
  data_seq = 5;
  record_count = 1;
}

parse-header_bytes_example :
    try_parse_canonical_data_packet little_endian arrived ≡ some arrived_view
parse-header_bytes_example =
    parse-header_bytes little_endian (replicate 42 0) (bbo 7) 5 1 112 little_endian-IsHostOrder refl
      (omega arith) (omega arith) (omega arith)

parse_sound_example :
    (64 ≤ 112)
    × (take 7 (drop 42 arrived.bytes) ≡ data_prefix)
    × (70 + 42 ≡ 112)
    × (arrived_view.bytes ≡ drop 42 arrived.bytes)
unfolding try_parse_canonical_data_packet starts_with swap16 swap64
parse_sound_example = parse_sound little_endian arrived {v = arrived_view} refl

abbrev next_view : CanonicalDataPacketView
next_view = record {
  bytes = header_bytes 6 1 ++ bbo 8;
  packet_size = 70;
  data_seq = 6;
  record_count = 1;
}

write-IsRing_example : IsRing 96 1 (bbo 7 ∷ bbo 8 ∷ []) (write compact ring₁ 1 next_view)
unfolding load_header frame_size
write-IsRing_example =
    write-IsRing compact compact-IsProfile 1 (bbo 7 ∷ []) ring₁ (bbo 8 ∷ []) (header_bytes 6 1) []
      next_view refl refl refl (bbo-IsFrame 8, tt) (omega arith) ring₁-IsRing
