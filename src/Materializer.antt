-- ===== src/Materializer.antt =====
-- src/dpdk/data_packet_materializer.cpp: the Ethernet, IPv4 and UDP headers around the canonical
-- image. A field of type `rte_be16_t` is the number that its bytes are on the host.
pub mod Envelope
use low_latency_data_transfe.Base.{
  ℕ, ◌+◌, ◌-◌, ◌*◌, ◌/◌, ◌%◌, ◌^◌, ◌≤◌, ◌<◌, ◌≡◌, List, [], ◌∷◌, ◌++◌, write_at, bit_and, u16,
  sub64,
}
use low_latency_data_transfe.Bytes.{le_bytes, le_value, be_bytes}
use low_latency_data_transfe.Parser.{Mbuf}
use low_latency_data_transfe.Sender.{data_packet_canonical_capacity}

-- The sum of the 16-bit words that bytes in memory are on the host.
abbrev pub word_sum : List ℕ → ℕ
word_sum [] = 0
word_sum (a ∷ []) = a
word_sum (a ∷ (b ∷ bytes)) = a + 256 * b + word_sum bytes

-- What the code takes from DPDK: constants, `rte_cpu_to_be_16`, `rte_raw_cksum`, and the data length
-- that `rte_pktmbuf_trim` leaves.
pub record Dpdk : Type 0 where
  pub ether_type_ipv4 : ℕ
  pub ipv4_vhl_def : ℕ
  pub ipv4_hdr_df_flag : ℕ
  pub ipproto_udp : ℕ
  pub cpu_to_be_16 : ℕ → ℕ
  pub raw_cksum : List ℕ → ℕ
  pub pktmbuf_trim : ℕ → ℕ → ℕ

-- Their documented behaviour: a conversion leaves the bytes in network order, a checksum is not complemented and of 16 bits, and a trim takes bytes
-- from the end.
pub record IsDpdk (d : Dpdk) : Type 0 where
  pub cpu_to_be_16_lem : (v : ℕ) → v < 2 ^ 16 → d.cpu_to_be_16 v ≡ le_value (be_bytes 2 v)
  pub raw_cksum-lt : (bytes : List ℕ) → d.raw_cksum bytes < 2 ^ 16
  pub raw_cksum_lem : (bytes : List ℕ) → d.raw_cksum bytes % 65535 ≡ word_sum bytes % 65535
  pub pktmbuf_trim_lem :
      (data_len len : ℕ) → len ≤ data_len → d.pktmbuf_trim data_len len ≡ data_len - len

pub record EtherHdr : Type 0 where
  pub dst_addr : List ℕ
  pub src_addr : List ℕ
  pub ether_type : ℕ

pub record Ipv4Hdr : Type 0 where
  pub version_ihl : ℕ
  pub type_of_service : ℕ
  pub total_length : ℕ
  pub packet_id : ℕ
  pub fragment_offset : ℕ
  pub time_to_live : ℕ
  pub next_proto_id : ℕ
  pub hdr_checksum : ℕ
  pub src_addr : ℕ
  pub dst_addr : ℕ

pub record UdpHdr : Type 0 where
  pub src_port : ℕ
  pub dst_port : ℕ
  pub dgram_len : ℕ
  pub dgram_cksum : ℕ

pub record PreparedDestination : Type 0 where
  pub ethernet : EtherHdr
  pub ipv4 : Ipv4Hdr
  pub udp : UdpHdr
  pub ipv4_checksum_base : ℕ

-- The headers as they are in memory.
abbrev pub ether_bytes : EtherHdr → List ℕ
ether_bytes h = h.dst_addr ++ (h.src_addr ++ le_bytes 2 h.ether_type)

abbrev pub ipv4_bytes : Ipv4Hdr → List ℕ
ipv4_bytes h =
    le_bytes 1 h.version_ihl
    ++ (le_bytes 1 h.type_of_service
        ++ (le_bytes 2 h.total_length
            ++ (le_bytes 2 h.packet_id
                ++ (le_bytes 2 h.fragment_offset
                    ++ (le_bytes 1 h.time_to_live
                        ++ (le_bytes 1 h.next_proto_id
                            ++ (le_bytes 2 h.hdr_checksum
                                ++ (le_bytes 4 h.src_addr ++ le_bytes 4 h.dst_addr))))))))

abbrev pub udp_bytes : UdpHdr → List ℕ
udp_bytes h =
    le_bytes 2 h.src_port
    ++ (le_bytes 2 h.dst_port ++ (le_bytes 2 h.dgram_len ++ le_bytes 2 h.dgram_cksum))

unfoldable pub prepare_destination : Dpdk → List ℕ → List ℕ → ℕ → ℕ → ℕ → PreparedDestination
prepare_destination d local_mac next_hop_mac local_ipv4 receiver_ipv4 data_port = record {
  ethernet = record {
    dst_addr = next_hop_mac;
    src_addr = local_mac;
    ether_type = d.cpu_to_be_16 d.ether_type_ipv4;
  };
  ipv4 = ipv4;
  udp = record {
    src_port = d.cpu_to_be_16 data_port;
    dst_port = d.cpu_to_be_16 data_port;
    dgram_len = 0;
    dgram_cksum = 0;
  };
  ipv4_checksum_base = d.raw_cksum (ipv4_bytes ipv4);
}
  where
    ipv4 : Ipv4Hdr
    ipv4 = record {
      version_ihl = d.ipv4_vhl_def;
      type_of_service = 0;
      total_length = 0;
      packet_id = 0;
      fragment_offset = d.cpu_to_be_16 d.ipv4_hdr_df_flag;
      time_to_live = 64;
      next_proto_id = d.ipproto_udp;
      hdr_checksum = 0;
      src_addr = local_ipv4;
      dst_addr = receiver_ipv4;
    }

-- `~((sum & 0xFFFF) + (sum >> 16))` in 16 bits, for `sum = base + total_length`.
unfoldable pub hdr_checksum : ℕ → ℕ → ℕ
hdr_checksum base total_length =
    let sum = base + total_length in
    let folded = bit_and sum 0xffff + sum / 2 ^ 16 in u16 (2 ^ 32 - 1 - folded)

unfoldable pub finalize_data_packet : Dpdk → Mbuf → PreparedDestination → ℕ → Mbuf
unfolding hdr_checksum
finalize_data_packet d mbuf dst canonical_size =
    let unused = sub64 data_packet_canonical_capacity canonical_size in
    let udp_size = 8 + canonical_size in
    let ipv4_size = 20 + udp_size in
    let total_length = d.cpu_to_be_16 (u16 ipv4_size) in
    let ipv4 = record dst.ipv4 {
      total_length = total_length;
      hdr_checksum = hdr_checksum dst.ipv4_checksum_base total_length;
    } in
    let udp = record dst.udp { dgram_len = d.cpu_to_be_16 (u16 udp_size); dgram_cksum = 0 } in
    let o₁ = write_at mbuf.bytes 0 (ether_bytes dst.ethernet) in
    let o₂ = write_at o₁ 14 (ipv4_bytes ipv4) in
    record {
      data_len = d.pktmbuf_trim mbuf.data_len (u16 unused);
      bytes = write_at o₂ 34 (udp_bytes udp);
    }
