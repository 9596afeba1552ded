-- ===== src/Receiver/Counted.antt =====
-- The receiver's counters account for every packet.
use low_latency_data_transfe.Base.{
  Option, Option-cases, inl, inr, sym, subst, ℕ, ◌+◌, ◌≡◌, refl, List, [], ◌∷◌, true, false, none,
  some, arith, u64, ◌==◌, length,
}
use mathlib.Core.Option.{some-injective}
use low_latency_data_transfe.Builder.{CanonicalDataPacketView}
use low_latency_data_transfe.Bytes.Order.{ByteOrder}
use low_latency_data_transfe.Message.{Profile}
use low_latency_data_transfe.Ring.{Region}
use low_latency_data_transfe.Parser.{Mbuf, try_parse_canonical_data_packet}
use low_latency_data_transfe.Receiver.{
  ReceiverState, process_packet, process_packets, receive_burst, run_receiver, start_receiver,
}

abbrev first_of : Option CanonicalDataPacketView → Option ℕ → Option ℕ
first_of none later = later
first_of (some packet) later = some packet.data_seq

-- The number of the first packet that is admitted: the one known, or that of the first among these.
abbrev pub first_admitted : ByteOrder → Option ℕ → List Mbuf → Option ℕ
first_admitted order (some n) mbufs = some n
first_admitted order none [] = none
first_admitted order none (mbuf ∷ mbufs) =
    first_of (try_parse_canonical_data_packet order mbuf) (first_admitted order none mbufs)

abbrev pub first_of_bursts : ByteOrder → Option ℕ → List (List Mbuf) → Option ℕ
first_of_bursts order first [] = first
first_of_bursts order first (mbufs ∷ bursts) =
    first_of_bursts order (first_admitted order first mbufs) bursts

-- Every packet is invalid, stale or accepted, and the expected sequence number is the first one that
-- was admitted and as many as were accepted or reported missing since; counters wrap, so all that
-- modulo `2 ^ 64`. Before the first one nothing is accepted.
pub record IsCounted (first : Option ℕ) (st : ReceiverState) : Type 0 where
  pub packets :
      st.counters.rx_packets
      ≡ u64 (
          st.counters.invalid_lldt_packets + st.counters.stale_data_packets
          + st.counters.data_packets_accepted)
  pub expected :
      (n : ℕ)
      → first ≡ some n
      → (st.data_seq_established ≡ true)
        × (u64 st.next_data_seq
            ≡ u64 (n + st.counters.data_packets_accepted + st.counters.data_packets_missing))
  pub fresh :
      first ≡ none
      → (st.data_seq_established ≡ false)
        × (st.counters.data_packets_accepted ≡ 0)
        × (st.counters.data_packets_missing ≡ 0)

first_admitted-nil : (order : ByteOrder) (first : Option ℕ) → first_admitted order first [] ≡ first
first_admitted-nil order none = refl
first_admitted-nil order (some n) = refl

first_admitted-cons :
    (order : ByteOrder) (first : Option ℕ) (mbuf : Mbuf) (mbufs : List Mbuf)
    → first_admitted order (first_admitted order first (mbuf ∷ [])) mbufs
      ≡ first_admitted order first (mbuf ∷ mbufs)
first_admitted-cons order (some n) mbuf mbufs = refl
first_admitted-cons order none mbuf mbufs = go (try_parse_canonical_data_packet order mbuf)
  where
    go :
        (o : Option CanonicalDataPacketView)
        → first_admitted order (first_of o none) mbufs
          ≡ first_of o (first_admitted order none mbufs)
    go none = refl
    go (some packet) = refl

module _ (p : Profile) (order : ByteOrder) (mask : ℕ) where
  -- One packet keeps the accounts.
  process_packet-IsCounted :
      (first : Option ℕ) (st : ReceiverState) (mbuf : Mbuf)
      → IsCounted first st
      → IsCounted (first_admitted order first (mbuf ∷ [])) (process_packet p order mask st mbuf)
  unfolding process_packet
  process_packet-IsCounted (some n) st mbuf v =
      let (est, e) = v.expected n refl in
      record {
        packets = ground (arith, v.packets);
        expected = λ m h.
            subst
              (λ t.
                let after = process_packet p order mask st mbuf in
                (after.data_seq_established ≡ true)
                × (u64 after.next_data_seq
                    ≡ u64 (
                        t + after.counters.data_packets_accepted
                        + after.counters.data_packets_missing)))
              (some-injective n m h) (ground (arith, est, e), ground (arith, est, e));
        fresh = λ h. absurd (grind arith);
      }
  process_packet-IsCounted none st mbuf v =
      let (est, accepted, missing) = v.fresh refl in
      elim (Option-cases (try_parse_canonical_data_packet order mbuf)) [
        | inl refused ↦
            subst (λ o. IsCounted (first_of o none) (process_packet p order mask st mbuf))
              (sym refused)
              (record {
                packets = ground (arith, v.packets);
                expected = λ m h. absurd (grind arith);
                fresh = λ _. (
                  ground (arith, refused, est),
                  ground (arith, refused, accepted),
                  ground (arith, refused, missing),
                );
              })
        | inr (packet, admitted) ↦
            subst (λ o. IsCounted (first_of o none) (process_packet p order mask st mbuf))
              (sym admitted)
              (record {
                packets = ground (arith, v.packets);
                expected = λ m h.
                    subst
                      (λ t.
                        let after = process_packet p order mask st mbuf in
                        (after.data_seq_established ≡ true)
                        × (u64 after.next_data_seq
                            ≡ u64 (
                                t + after.counters.data_packets_accepted
                                + after.counters.data_packets_missing)))
                      (some-injective packet.data_seq m h)
                      (ground (arith, admitted), ground (arith, admitted, est, accepted, missing));
                fresh = λ h. absurd (grind arith);
              })
      ]

  process_packets-IsCounted :
      (first : Option ℕ) (st : ReceiverState) (mbufs : List Mbuf)
      → IsCounted first st
      → IsCounted (first_admitted order first mbufs) (process_packets p order mask st mbufs)
  unfolding process_packets
  process_packets-IsCounted first st [] v =
      subst (λ o. IsCounted o st) (sym (first_admitted-nil order first)) v
  process_packets-IsCounted first st (mbuf ∷ mbufs) v =
      subst (λ o. IsCounted o (process_packets p order mask st (mbuf ∷ mbufs)))
        (first_admitted-cons order first mbuf mbufs)
        (process_packets-IsCounted (first_admitted order first (mbuf ∷ []))
          (process_packet p order mask st mbuf) mbufs (process_packet-IsCounted first st mbuf v))

  receive_burst-IsCounted :
      (first : Option ℕ) (st : ReceiverState) (mbufs : List Mbuf)
      → IsCounted first st
      → IsCounted (first_admitted order first mbufs) (receive_burst p order mask st mbufs)
  unfolding receive_burst
  receive_burst-IsCounted first st [] v =
      subst (λ o. IsCounted o (receive_burst p order mask st []))
        (sym (first_admitted-nil order first))
        (record { packets = v.packets; expected = v.expected; fresh = v.fresh })
  receive_burst-IsCounted first st (mbuf ∷ mbufs) v = rw if_nonempty (
      process_packets-IsCounted first _ (mbuf ∷ mbufs)
        (record { packets = v.packets; expected = v.expected; fresh = v.fresh }))
    where
      if_nonempty : (length (mbuf ∷ mbufs) == 0) ≡ false
      if_nonempty = ground arith

  -- Over any bursts every received packet is counted once as invalid, stale or accepted, and the
  -- sequence number expected is that of the first packet that was admitted plus the packets
  -- accepted and reported missing, modulo 2^64; as long as none was admitted, nothing is accepted
  -- and nothing missing.
  pub run_receiver-IsCounted :
      (first : Option ℕ) (st : ReceiverState) (bursts : List (List Mbuf))
      → IsCounted first st
      → IsCounted (first_of_bursts order first bursts) (run_receiver p order mask st bursts)
  unfolding run_receiver
  run_receiver-IsCounted first st [] v = v
  run_receiver-IsCounted first st (mbufs ∷ bursts) v =
      run_receiver-IsCounted (first_admitted order first mbufs)
        (receive_burst p order mask st mbufs) bursts (receive_burst-IsCounted first st mbufs v)

-- A run starts with all counters at zero.
pub start_receiver-IsCounted : (region : Region) → IsCounted none (start_receiver region)
start_receiver-IsCounted region = record {
  packets = refl;
  expected = λ n h. absurd (grind arith);
  fresh = λ _. (refl, refl, refl);
}
