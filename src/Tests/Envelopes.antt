-- ===== src/Tests/Envelopes.antt =====
-- The envelope of a packet with an image of 118 bytes, on a little-endian host.
use low_latency_data_transfe.Base.{ℕ, ◌-◌, ◌%◌, refl, List, [], ◌∷◌, arith, replicate, drop}
use low_latency_data_transfe.Parser.{Mbuf}
use low_latency_data_transfe.Materializer.{
  Dpdk, IsDpdk, word_sum, prepare_destination, finalize_data_packet,
}
use low_latency_data_transfe.Materializer.Envelope.{IsEnvelope, finalize_data_packet-IsEnvelope}
use low_latency_data_transfe.Tests.Data.{swap16}

abbrev pub dpdk : Dpdk
dpdk = record {
  ether_type_ipv4 = 0x800;
  ipv4_vhl_def = 0x45;
  ipv4_hdr_df_flag = 0x4000;
  ipproto_udp = 17;
  cpu_to_be_16 = swap16;
  raw_cksum = λ bytes. word_sum bytes % 65535;
  pktmbuf_trim = λ data_len len. data_len - len;
}

pub dpdk-IsDpdk : IsDpdk dpdk
unfolding swap16
dpdk-IsDpdk = record {
  cpu_to_be_16_lem = λ v h. refl;
  raw_cksum-lt = λ bytes. omega arith;
  raw_cksum_lem = λ bytes. omega arith;
  pktmbuf_trim_lem = λ data_len len h. refl;
}

abbrev reserved : Mbuf
reserved = record { data_len = 1514; bytes = replicate 1514 7 }

abbrev pub local_mac : List ℕ
local_mac = 2 ∷ 0 ∷ 0 ∷ 0 ∷ 0 ∷ 1 ∷ []

abbrev pub next_hop_mac : List ℕ
next_hop_mac = 2 ∷ 0 ∷ 0 ∷ 0 ∷ 0 ∷ 2 ∷ []

finalize_data_packet-IsEnvelope_example :
    IsEnvelope local_mac next_hop_mac (drop 42 reserved.bytes) 118 (
      finalize_data_packet dpdk reserved
        (prepare_destination dpdk local_mac next_hop_mac 0x0100000a 0x0200000a 443)
        118)
finalize_data_packet-IsEnvelope_example =
    finalize_data_packet-IsEnvelope dpdk reserved local_mac next_hop_mac 0x0100000a 0x0200000a 443
      118 dpdk-IsDpdk refl refl refl (omega arith) (omega arith)
