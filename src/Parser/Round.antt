-- ===== src/Parser/Round.antt =====
-- The parser reads back what the builder writes, and admits nothing without the prefix.
use low_latency_data_transfe.Base.{
  ℕ, ◌+◌, ◌-◌, ◌^◌, ◌≤◌, ◌<◌, ◌≡◌, refl, sym, List, [], ◌∷◌, ◌++◌, true, some, take, drop, length,
  arith, drop-append, le→ltb,
}
use low_latency_data_transfe.Bytes.Order.{ByteOrder, IsHostOrder}
use low_latency_data_transfe.Builder.{CanonicalDataPacketView}
use low_latency_data_transfe.Builder.Header.{header_bytes}
use low_latency_data_transfe.Parser.{
  Mbuf, outer_header_size, data_prefix, starts_with, try_parse_canonical_data_packet,
}

-- A canonical image behind 42 bytes, in a packet of at least 64 bytes, is admitted, and its
-- sequence number and frame count are read back.
pub parse-header_bytes :
    (order : ByteOrder) (outer payload : List ℕ) (data_seq record_count data_len : ℕ)
    → IsHostOrder order
    → length outer ≡ outer_header_size
    → 64 ≤ data_len
    → data_seq < 2 ^ 64
    → record_count < 2 ^ 16
    → try_parse_canonical_data_packet order (record {
      data_len = data_len;
      bytes = outer ++ (header_bytes data_seq record_count ++ payload);
    })
      ≡ some (record {
        bytes = header_bytes data_seq record_count ++ payload;
        packet_size = data_len - outer_header_size;
        data_seq = data_seq;
        record_count = record_count;
      })
unfolding try_parse_canonical_data_packet starts_with
parse-header_bytes order outer payload data_seq record_count data_len o len enough s c = rw (
  le→ltb data_len 64 enough,
  drop-append outer (header_bytes data_seq record_count ++ payload) outer_header_size (sym len),
  o.be_to_cpu_64_lem data_seq s,
  o.be_to_cpu_16_lem record_count c,
)

starts_with-take : (bytes ps : List ℕ) → starts_with bytes ps ≡ true → take (length ps) bytes ≡ ps
unfolding starts_with
starts_with-take bytes [] h = refl
starts_with-take [] (p ∷ ps) h = cc
starts_with-take (b ∷ bs) (p ∷ ps) h = ground (arith, starts_with-take bs ps)

-- An admitted packet has at least 64 bytes and the protocol's prefix at offset 42, and the view of
-- it begins and ends where the canonical image does.
pub parse_sound :
    (order : ByteOrder) (mbuf : Mbuf) {v : CanonicalDataPacketView}
    → try_parse_canonical_data_packet order mbuf ≡ some v
    → (64 ≤ mbuf.data_len)
      × (take 7 (drop outer_header_size mbuf.bytes) ≡ data_prefix)
      × (v.packet_size + outer_header_size ≡ mbuf.data_len)
      × (v.bytes ≡ drop outer_header_size mbuf.bytes)
unfolding try_parse_canonical_data_packet
parse_sound order mbuf h =
    ground (arith, starts_with-take (drop outer_header_size mbuf.bytes) data_prefix)
