-- ===== src/Receiver/Replay.antt =====
-- The expected sequence number never falls, so nothing is written twice.
use low_latency_data_transfe.Base.{
  ℕ, ◌+◌, ◌^◌, ◌≤◌, ◌<◌, ◌≡◌, List, [], ◌∷◌, true, false, some, arith, length, ◌==◌, Option-cases,
  inl, inr,
}
use low_latency_data_transfe.Bytes.Order.{ByteOrder}
use low_latency_data_transfe.Message.{Profile}
use low_latency_data_transfe.Builder.{CanonicalDataPacketView}
use low_latency_data_transfe.Parser.{Mbuf, try_parse_canonical_data_packet}
use low_latency_data_transfe.Receiver.{
  ReceiverState, process_packet, process_packets, receive_burst, run_receiver,
}
use low_latency_data_transfe.Receiver.Branches.{process_packet-stale}

-- No packet carries the last sequence number, behind which the next would wrap to 0.
abbrev pub NoWrap : ByteOrder → List Mbuf → Type 0
NoWrap order [] = Unit {0}
NoWrap order (mbuf ∷ mbufs) =
    ((packet : CanonicalDataPacketView)
      → try_parse_canonical_data_packet order mbuf ≡ some packet
      → packet.data_seq + 1 < 2 ^ 64)
    × NoWrap order mbufs

abbrev pub NoWraps : ByteOrder → List (List Mbuf) → Type 0
NoWraps order [] = Unit {0}
NoWraps order (mbufs ∷ bursts) = NoWrap order mbufs × NoWraps order bursts

-- The later state expects no less.
pub record Advances (st st' : ReceiverState) : Type 0 where
  pub stays : st.data_seq_established ≡ true → st'.data_seq_established ≡ true
  pub grows : st.data_seq_established ≡ true → st.next_data_seq ≤ st'.next_data_seq

Advances-trans : {a b c : ReceiverState} → Advances a b → Advances b c → Advances a c
Advances-trans f g = record {
  stays = λ h. g.stays (f.stays h);
  grows = λ h. omega (arith, f.grows h, g.grows (f.stays h));
}

module _ (p : Profile) (order : ByteOrder) (mask : ℕ) where
  process_packet-Advances :
      (st : ReceiverState) (mbuf : Mbuf)
      → ((packet : CanonicalDataPacketView)
          → try_parse_canonical_data_packet order mbuf ≡ some packet
          → packet.data_seq + 1 < 2 ^ 64)
      → Advances st (process_packet p order mask st mbuf)
  unfolding process_packet
  process_packet-Advances st mbuf small =
      elim (Option-cases (try_parse_canonical_data_packet order mbuf)) [
        | inl e ↦ rw (e, process_packet) record { stays = λ h. h; grows = λ h. omega arith }
        | inr (packet, e) ↦ record {
          stays = ground (arith, e);
          grows = ground (arith, e, small packet e);
        }
      ]

  accepted :
      (st : ReceiverState) (mbuf : Mbuf) (packet : CanonicalDataPacketView)
      → try_parse_canonical_data_packet order mbuf ≡ some packet
      → (st.data_seq_established ≡ true → st.next_data_seq ≤ packet.data_seq)
      → packet.data_seq + 1 < 2 ^ 64
      → ((process_packet p order mask st mbuf).next_data_seq ≡ packet.data_seq + 1)
        × ((process_packet p order mask st mbuf).data_seq_established ≡ true)
  unfolding process_packet
  accepted st mbuf packet e fresh small = ground arith

  process_packets-Advances :
      (st : ReceiverState) (mbufs : List Mbuf)
      → NoWrap order mbufs
      → Advances st (process_packets p order mask st mbufs)
  unfolding process_packets
  process_packets-Advances st [] small = record { stays = λ h. h; grows = λ h. omega arith }
  process_packets-Advances st (mbuf ∷ mbufs) small =
      Advances-trans (process_packet-Advances st mbuf small.0)
        (process_packets-Advances (process_packet p order mask st mbuf) mbufs small.1)

  receive_burst-Advances :
      (st : ReceiverState) (mbufs : List Mbuf)
      → NoWrap order mbufs
      → Advances st (receive_burst p order mask st mbufs)
  unfolding receive_burst
  receive_burst-Advances st [] small = record { stays = λ h. h; grows = λ h. omega arith }
  receive_burst-Advances st (mbuf ∷ mbufs) small = rw if_nonempty (
      Advances-trans (record { stays = λ h. h; grows = λ h. omega arith })
        (process_packets-Advances _ (mbuf ∷ mbufs) small))
    where
      if_nonempty : (length (mbuf ∷ mbufs) == 0) ≡ false
      if_nonempty = ground arith

  -- The expected sequence number never falls while the receiver runs.
  pub run_receiver-Advances :
      (st : ReceiverState) (bursts : List (List Mbuf))
      → NoWraps order bursts
      → Advances st (run_receiver p order mask st bursts)
  unfolding run_receiver
  run_receiver-Advances st [] small = record { stays = λ h. h; grows = λ h. omega arith }
  run_receiver-Advances st (mbufs ∷ bursts) small =
      Advances-trans (receive_burst-Advances st mbufs small.0)
        (run_receiver-Advances (receive_burst p order mask st mbufs) bursts small.1)

  -- After a packet was accepted and any bursts were processed, the same packet or an older one
  -- leaves the ring, the expected number and the count of accepted packets unchanged, if no
  -- sequence number is the largest there is.
  pub no_replay :
      (st : ReceiverState) (mbuf again : Mbuf) (bursts : List (List Mbuf))
      (packet old : CanonicalDataPacketView)
      → try_parse_canonical_data_packet order mbuf ≡ some packet
      → try_parse_canonical_data_packet order again ≡ some old
      → old.data_seq ≤ packet.data_seq
      → (st.data_seq_established ≡ true → st.next_data_seq ≤ packet.data_seq)
      → packet.data_seq + 1 < 2 ^ 64
      → NoWraps order bursts
      → let later = run_receiver p order mask (process_packet p order mask st mbuf) bursts in
        let last = process_packet p order mask later again in
        (last.region ≡ later.region)
        × (last.next_data_seq ≡ later.next_data_seq)
        × (last.counters.data_packets_accepted ≡ later.counters.data_packets_accepted)
  no_replay st mbuf again bursts packet old e e' le fresh small smalls =
      let later = run_receiver p order mask (process_packet p order mask st mbuf) bursts in
      let out =
        process_packet-stale p order mask later again old e' (grown.stays taken.1)
          (omega (arith, grown.grows taken.1, taken.0)) in
      (out.1, out.2, out.4)
    where
      grown :
          Advances
            (process_packet p order mask st mbuf)
            (run_receiver p order mask (process_packet p order mask st mbuf) bursts)
      grown = run_receiver-Advances (process_packet p order mask st mbuf) bursts smalls

      taken :
          ((process_packet p order mask st mbuf).next_data_seq ≡ packet.data_seq + 1)
          × ((process_packet p order mask st mbuf).data_seq_established ≡ true)
      taken = accepted st mbuf packet e fresh small
