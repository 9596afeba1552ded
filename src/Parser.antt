-- ===== src/Parser.antt =====
-- src/dpdk/ingress_packet_parser.cpp: admission of a received packet, at fixed offsets.
pub mod Round
use low_latency_data_transfe.Base.{
  ℕ, ◌-◌, List, [], ◌∷◌, Bool, true, false, ◌&&◌, Option, none, some, take, drop, ltb, ◌==◌,
  if◌then◌else◌, not,
}
use low_latency_data_transfe.Bytes.{load_field}
use low_latency_data_transfe.Bytes.Order.{ByteOrder}
use low_latency_data_transfe.Builder.{CanonicalDataPacketView}

-- An `rte_mbuf`: `bytes` is the memory from its data on, of which `data_len` bytes are valid.
pub record Mbuf : Type 0 where
  pub data_len : ℕ
  pub bytes : List ℕ

-- `sizeof` of the Ethernet, IPv4 and UDP headers: 14 + 20 + 8.
abbrev pub outer_header_size : ℕ
outer_header_size = 42

abbrev pub data_prefix : List ℕ
data_prefix = 0x4c ∷ 0x4c ∷ 0x44 ∷ 0x54 ∷ 0x01 ∷ 0x00 ∷ 0x16 ∷ []

-- `std::memcmp(data, prefix, sizeof(prefix)) == 0`
unfoldable pub starts_with : List ℕ → List ℕ → Bool
starts_with bytes [] = true
starts_with [] (p ∷ ps) = false
starts_with (b ∷ bs) (p ∷ ps) = b == p && starts_with bs ps

unfoldable pub try_parse_canonical_data_packet : ByteOrder → Mbuf → Option CanonicalDataPacketView
try_parse_canonical_data_packet order mbuf =
    let packet = drop outer_header_size mbuf.bytes in
    if ltb mbuf.data_len 64
    then none
    else if not (starts_with packet data_prefix)
    then none
    else some (record {
      bytes = packet;
      packet_size = mbuf.data_len - outer_header_size;
      data_seq = order.be_to_cpu_64 (load_field 7 8 packet);
      record_count = order.be_to_cpu_16 (load_field 15 2 packet);
    })
