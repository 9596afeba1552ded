-- ===== src/Receiver/Branches.antt =====
-- The branches of the receiver's treatment of one packet: what it leaves of the state.
use low_latency_data_transfe.Base.{ℕ, ◌+◌, ◌≤◌, ◌<◌, ◌≡◌, true, none, some, arith, u64}
use low_latency_data_transfe.Bytes.Order.{ByteOrder}
use low_latency_data_transfe.Message.{Profile}
use low_latency_data_transfe.Builder.{CanonicalDataPacketView}
use low_latency_data_transfe.Parser.{Mbuf, try_parse_canonical_data_packet}
use low_latency_data_transfe.Receiver.{ReceiverState, process_packet}
use low_latency_data_transfe.Receiver.Writer.{write}

module _ (p : Profile) (order : ByteOrder) (mask : ℕ) (st : ReceiverState) (mbuf : Mbuf) where
  abbrev after : ReceiverState
  after = process_packet p order mask st mbuf

  pub process_packet-invalid :
      try_parse_canonical_data_packet order mbuf ≡ none
      → (after.counters.invalid_lldt_packets ≡ u64 (st.counters.invalid_lldt_packets + 1))
        × (after.region ≡ st.region)
        × (after.next_data_seq ≡ st.next_data_seq)
        × (after.data_seq_established ≡ st.data_seq_established)
        × (after.counters.data_packets_accepted ≡ st.counters.data_packets_accepted)
  unfolding process_packet
  process_packet-invalid e = ground arith

  module _ (packet : CanonicalDataPacketView) where
    pub process_packet-stale :
        try_parse_canonical_data_packet order mbuf ≡ some packet
        → st.data_seq_established ≡ true
        → packet.data_seq < st.next_data_seq
        → (after.counters.stale_data_packets ≡ u64 (st.counters.stale_data_packets + 1))
          × (after.region ≡ st.region)
          × (after.next_data_seq ≡ st.next_data_seq)
          × (after.data_seq_established ≡ true)
          × (after.counters.data_packets_accepted ≡ st.counters.data_packets_accepted)
    unfolding process_packet
    process_packet-stale e est lt = ground arith

    -- The region behind a packet that is written.
    pub process_packet-region :
        try_parse_canonical_data_packet order mbuf ≡ some packet
        → (st.data_seq_established ≡ true → st.next_data_seq ≤ packet.data_seq)
        → after.region ≡ write p st.region mask packet
    unfolding process_packet
    process_packet-region e est = ground arith
