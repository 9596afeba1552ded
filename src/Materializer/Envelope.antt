-- ===== src/Materializer/Envelope.antt =====
-- The headers that `finalize_data_packet` leaves, and the checksum of the IPv4 header.
use mathlib.Core.Path.{ap₂}
use low_latency_data_transfe.Base.{
  ℕ, ◌+◌, ◌*◌, ◌/◌, ◌%◌, ◌^◌, ◌≤◌, ◌<◌, ◌≡◌, refl, sym, ap, ◌∙◌, List, [], ◌∷◌, ◌++◌, arith, length,
  length-append, take, drop, drop-append, take-append, write_at, write_at_front, write_at-append,
  append_assoc, bit_and, length-drop, drop-drop, u16, sub64,
}
use low_latency_data_transfe.Bytes.{le_bytes, be_bytes, le_value}
use low_latency_data_transfe.Base.Bits.{bit_and-mask}
use low_latency_data_transfe.Bytes.Order.{bit_and-0xff}
use low_latency_data_transfe.Parser.{Mbuf}
use low_latency_data_transfe.Materializer.{
  word_sum, Dpdk, IsDpdk, Ipv4Hdr, UdpHdr, ether_bytes, ipv4_bytes, udp_bytes, prepare_destination,
  hdr_checksum, finalize_data_packet,
}

-- The two bytes of a field are a word of it.
word_le_bytes : (v : ℕ) → bit_and v 0xff + 256 * bit_and (v / 256) 0xff ≡ v % 2 ^ 16
word_le_bytes v = omega (arith, bit_and-0xff v, bit_and-0xff (v / 256))

-- The words of a header, those of its length and checksum taken out.
word_sum-ipv4_bytes :
    (h : Ipv4Hdr)
    → word_sum (ipv4_bytes h)
      ≡ word_sum (ipv4_bytes (record h { total_length = 0; hdr_checksum = 0 }))
        + h.total_length % 2 ^ 16
        + h.hdr_checksum % 2 ^ 16
word_sum-ipv4_bytes h = omega (arith, word_le_bytes h.total_length, word_le_bytes h.hdr_checksum)

-- One fold is enough, and the complement makes the sum a multiple of 65535.
hdr_checksum_lem :
    (base total words : ℕ)
    → base < 2 ^ 16
    → total < 2 ^ 16
    → base % 65535 ≡ words % 65535
    → (words + total + hdr_checksum base total) % 65535 ≡ 0
unfolding hdr_checksum
hdr_checksum_lem base total words small small' e = omega (arith, bit_and-mask 16 (base + total))

hdr_checksum-lt : (base total : ℕ) → hdr_checksum base total < 2 ^ 16
unfolding hdr_checksum
hdr_checksum-lt base total = omega arith

-- A header with its length and its checksum stored sums to zero.
checksummed :
    (h : Ipv4Hdr) (base total : ℕ)
    → base < 2 ^ 16
    → total < 2 ^ 16
    → base % 65535 ≡ word_sum (ipv4_bytes h) % 65535
    → h.total_length ≡ 0
    → h.hdr_checksum ≡ 0
    → word_sum
          (ipv4_bytes (record h { total_length = total; hdr_checksum = hdr_checksum base total }))
        % 65535
      ≡ 0
checksummed h base total small small' e no_length no_checksum =
    ap (λ t. t % 65535) {y = word_sum (ipv4_bytes h) + total + hdr_checksum base total}
      (omega (
        arith,
        word_sum-ipv4_bytes
            (record h { total_length = total; hdr_checksum = hdr_checksum base total }),
        word_sum-ipv4_bytes h,
        hdr_checksum-lt base total,
        no_length,
        no_checksum,
      ))
    ∙ hdr_checksum_lem base total (word_sum (ipv4_bytes h)) small small' e

-- A field that was converted is in memory with its most significant byte first.
network_order :
    (d : Dpdk) → IsDpdk d → (v : ℕ) → v < 2 ^ 16 → le_bytes 2 (d.cpu_to_be_16 v) ≡ be_bytes 2 v
network_order d law v small =
    ap (le_bytes 2) (law.cpu_to_be_16_lem v small)
    ∙ ap₂ (λ a b. a ∷ b ∷ [])
        (omega (
          arith,
          bit_and-0xff (v / 2 ^ 8),
          bit_and-0xff (v / 1),
          bit_and-0xff (le_value (be_bytes 2 v)),
        ))
        (omega (
          arith,
          bit_and-0xff (v / 2 ^ 8),
          bit_and-0xff (v / 1),
          bit_and-0xff (le_value (be_bytes 2 v) / 256),
        ))

network-lt : (d : Dpdk) → IsDpdk d → (v : ℕ) → v < 2 ^ 16 → d.cpu_to_be_16 v < 2 ^ 16
network-lt d law v small =
    omega (arith, law.cpu_to_be_16_lem v small, bit_and-0xff (v / 2 ^ 8), bit_and-0xff (v / 1))

-- Three stores, one behind the other.
stores :
    (bytes e i u : List ℕ)
    → length e ≡ 14
    → length i ≡ 20
    → length u ≡ 8
    → 42 ≤ length bytes
    → write_at (write_at (write_at bytes 0 e) 14 i) 34 u ≡ e ++ (i ++ (u ++ drop 42 bytes))
stores bytes e i u le li lu room =
    ap (λ t. write_at (write_at t 14 i) 34 u)
      (write_at_front bytes e (omega arith) ∙ ap (λ n. e ++ drop n bytes) le)
    ∙ ap (λ t. write_at t 34 u)
        (write_at-append e (drop 14 bytes) 14 i (sym le) (omega (arith, length-drop 14 bytes))
          ∙ ap (λ n. e ++ (i ++ drop n (drop 14 bytes))) li
          ∙ sym (append_assoc e i (drop 20 (drop 14 bytes))))
    ∙ write_at-append (e ++ i) (drop 20 (drop 14 bytes)) 34 u (omega (arith, length-append e i))
        (omega (arith, length-drop 14 bytes, length-drop 20 (drop 14 bytes)))
    ∙ ap (λ n. (e ++ i) ++ (u ++ drop n (drop 20 (drop 14 bytes)))) lu
    ∙ append_assoc e i (u ++ drop 8 (drop 20 (drop 14 bytes)))
    ∙ ap (λ t. e ++ (i ++ (u ++ t))) (ap (drop 8) (drop-drop 20 14 bytes) ∙ drop-drop 8 34 bytes)

-- The frame on the wire: the outer headers with their sizes and checksums, and the image as it was.
pub record IsEnvelope (local_mac next_hop_mac bytes : List ℕ) (canonical_size : ℕ) (m : Mbuf)
    : Type 0 where
  pub data_len : m.data_len ≡ 42 + canonical_size
  pub addresses : take 12 m.bytes ≡ next_hop_mac ++ local_mac
  pub total_length : take 2 (drop 2 (drop 14 m.bytes)) ≡ be_bytes 2 (28 + canonical_size)
  pub checksum : word_sum (take 20 (drop 14 m.bytes)) % 65535 ≡ 0
  pub dgram_len : take 2 (drop 4 (drop 34 m.bytes)) ≡ be_bytes 2 (8 + canonical_size)
  pub dgram_cksum : take 2 (drop 6 (drop 34 m.bytes)) ≡ 0 ∷ 0 ∷ []
  pub image : drop 42 m.bytes ≡ bytes

-- The envelope of three headers laid one behind the other.
laid-IsEnvelope :
    (local_mac next_hop_mac image : List ℕ) (ether_type canonical_size : ℕ) (i : Ipv4Hdr)
    (u : UdpHdr) (m : Mbuf)
    → length local_mac ≡ 6
    → length next_hop_mac ≡ 6
    → m.data_len ≡ 42 + canonical_size
    → m.bytes
      ≡ ether_bytes
          (record { dst_addr = next_hop_mac; src_addr = local_mac; ether_type = ether_type })
        ++ (ipv4_bytes i ++ (udp_bytes u ++ image))
    → le_bytes 2 i.total_length ≡ be_bytes 2 (28 + canonical_size)
    → word_sum (ipv4_bytes i) % 65535 ≡ 0
    → le_bytes 2 u.dgram_len ≡ be_bytes 2 (8 + canonical_size)
    → u.dgram_cksum ≡ 0
    → IsEnvelope local_mac next_hop_mac image canonical_size m
laid-IsEnvelope local_mac next_hop_mac image ether_type canonical_size i u m l n size laid total sum
      dgram none =
    record {
      data_len = size;
      addresses =
          ap (take 12) laid
          ∙ ap (take 12) (
              append_assoc next_hop_mac (local_mac ++ le_bytes 2 ether_type) behind
              ∙ ap (◌++◌ next_hop_mac) (append_assoc local_mac (le_bytes 2 ether_type) behind)
              ∙ sym (append_assoc next_hop_mac local_mac (le_bytes 2 ether_type ++ behind)))
          ∙ take-append (next_hop_mac ++ local_mac) (le_bytes 2 ether_type ++ behind) 12
              (omega (arith, length-append next_hop_mac local_mac));
      total_length = ap (λ t. take 2 (drop 2 t)) at_ipv4 ∙ total;
      checksum = ap (λ t. word_sum (take 20 t) % 65535) at_ipv4 ∙ sum;
      dgram_len = ap (λ t. take 2 (drop 4 t)) at_udp ∙ dgram;
      dgram_cksum = ap (λ t. take 2 (drop 6 t)) at_udp ∙ ap (le_bytes 2) none;
      image = sym (drop-drop 8 34 m.bytes) ∙ ap (drop 8) at_udp;
    }
  where
    e : List ℕ
    e =
        ether_bytes
          (record { dst_addr = next_hop_mac; src_addr = local_mac; ether_type = ether_type })

    behind : List ℕ
    behind = ipv4_bytes i ++ (udp_bytes u ++ image)

    at_ipv4 : drop 14 m.bytes ≡ behind
    at_ipv4 =
        ap (drop 14) laid
        ∙ drop-append e behind 14 (
            omega (
              arith,
              length-append next_hop_mac (local_mac ++ le_bytes 2 ether_type),
              length-append local_mac (le_bytes 2 ether_type),
            ))

    at_udp : drop 34 m.bytes ≡ udp_bytes u ++ image
    at_udp = sym (drop-drop 20 14 m.bytes) ∙ ap (drop 20) at_ipv4

-- With a canonical image of at most 1472 bytes in a reserved packet of 1514, the packet ends with
-- the image, the IPv4 and UDP lengths are right and in network order, the IPv4 header's checksum
-- is valid, that of UDP is zero, the MAC addresses stand in front, and the image is untouched.
pub finalize_data_packet-IsEnvelope :
    (d : Dpdk) (mbuf : Mbuf) (local_mac next_hop_mac : List ℕ)
    (local_ipv4 receiver_ipv4 data_port canonical_size : ℕ)
    → IsDpdk d
    → length local_mac ≡ 6
    → length next_hop_mac ≡ 6
    → mbuf.data_len ≡ 1514
    → 42 ≤ length mbuf.bytes
    → canonical_size ≤ 1472
    → IsEnvelope local_mac next_hop_mac (drop 42 mbuf.bytes) canonical_size (
        finalize_data_packet d mbuf
          (prepare_destination d local_mac next_hop_mac local_ipv4 receiver_ipv4 data_port)
          canonical_size)
unfolding prepare_destination finalize_data_packet
finalize_data_packet-IsEnvelope d mbuf local_mac next_hop_mac local_ipv4 receiver_ipv4 data_port
      canonical_size law l n reserved room fits =
    let out =
      finalize_data_packet d mbuf
        (prepare_destination d local_mac next_hop_mac local_ipv4 receiver_ipv4 data_port)
        canonical_size in
    let total = d.cpu_to_be_16 (u16 (20 + (8 + canonical_size))) in
    let dst = prepare_destination d local_mac next_hop_mac local_ipv4 receiver_ipv4 data_port in
    let i = record dst.ipv4 {
      total_length = total;
      hdr_checksum = hdr_checksum dst.ipv4_checksum_base total;
    } in
    laid-IsEnvelope local_mac next_hop_mac (drop 42 mbuf.bytes) dst.ethernet.ether_type
      canonical_size i
      (record dst.udp { dgram_len = d.cpu_to_be_16 (u16 (8 + canonical_size)); dgram_cksum = 0 })
      out l n
      (omega
        (arith, law.pktmbuf_trim_lem mbuf.data_len (u16 (sub64 1472 canonical_size)) (omega arith)))
      (stores mbuf.bytes (ether_bytes dst.ethernet) (ipv4_bytes i) _
        (omega (
          arith,
          length-append next_hop_mac (local_mac ++ le_bytes 2 dst.ethernet.ether_type),
          length-append local_mac (le_bytes 2 dst.ethernet.ether_type),
        ))
        refl refl room)
      (network_order d law (u16 (20 + (8 + canonical_size))) (omega arith)
        ∙ ap (be_bytes 2) (omega arith))
      (checksummed dst.ipv4 dst.ipv4_checksum_base total (law.raw_cksum-lt (ipv4_bytes dst.ipv4))
        (network-lt d law (u16 (20 + (8 + canonical_size))) (omega arith))
        (law.raw_cksum_lem (ipv4_bytes dst.ipv4)) refl refl)
      (network_order d law (u16 (8 + canonical_size)) (omega arith) ∙ ap (be_bytes 2) (omega arith))
      refl
