-- ===== src/Pipeline/Channel.antt =====
-- A run of the sender, a link that loses packets, and the receiver behind it.
use low_latency_data_transfe.Base.{
  ℕ, ◌+◌, ◌*◌, ◌-◌, ◌^◌, ◌≤◌, ◌<◌, ◌≡◌, sym, List, [], ◌∷◌, ◌++◌, Bool, true, Option, none, some,
  arith, length, length-append, append_assoc, append-nil, subst,
}
use low_latency_data_transfe.Bytes.Order.{ByteOrder, IsHostOrder}
use low_latency_data_transfe.Message.{Profile, IsProfile}
use low_latency_data_transfe.Builder.{CanonicalDataPacketView}
use low_latency_data_transfe.Ring.Window.{IsRing}
use low_latency_data_transfe.Parser.{Mbuf, outer_header_size, try_parse_canonical_data_packet}
use low_latency_data_transfe.Receiver.{ReceiverState, process_packet, process_packets}
use low_latency_data_transfe.Sender.{SenderState, Turn, run_sender}
use low_latency_data_transfe.Sender.Turns.{IsSender}
use low_latency_data_transfe.Sender.Audit.{IsAudited}
use low_latency_data_transfe.Sender.Run.{AllReserve, Emitted, length-Emitted, run_sender-SenderRun}
use low_latency_data_transfe.Pipeline.{received, parsed, process_packet-publishes}

-- What the link does to each packet: it is lost, or arrives behind these outer headers.
unfoldable pub channel : List (Option (List ℕ)) → List CanonicalDataPacketView → List Mbuf
channel [] vs = []
channel (fate ∷ fates) [] = []
channel (none ∷ fates) (v ∷ vs) = channel fates vs
channel (some outer ∷ fates) (v ∷ vs) = received outer v ∷ channel fates vs

abbrev pub Framed : List (Option (List ℕ)) → Type 0
Framed [] = Unit {0}
Framed (none ∷ fates) = Framed fates
Framed (some outer ∷ fates) = (length outer ≡ outer_header_size) × Framed fates

module _ (p : Profile) where
  -- The frames of the packets that arrive.
  unfoldable pub delivered :
      (next limit : ℕ) (fates : List (Option (List ℕ))) (vs : List CanonicalDataPacketView)
      → Emitted p next limit vs
      → List (List ℕ)
  delivered next limit [] vs e = []
  delivered next limit (fate ∷ fates) [] e = []
  delivered next limit (none ∷ fates) (v ∷ vs) (n, least, most, d, e) =
      delivered (n + 1) limit fates vs e
  delivered next limit (some outer ∷ fates) (v ∷ vs) (n, least, most, d, e) =
      d.frames ++ delivered (n + 1) limit fates vs e

module _ (p : Profile) (law : IsProfile p) (order : ByteOrder) (host : IsHostOrder order)
    (k : ℕ) where
  expects-after :
      (rx : ReceiverState) (mbuf : Mbuf) (packet : CanonicalDataPacketView)
      → try_parse_canonical_data_packet order mbuf ≡ some packet
      → (rx.data_seq_established ≡ true → rx.next_data_seq ≤ packet.data_seq)
      → (process_packet p order (2 ^ k - 1) rx mbuf).next_data_seq ≤ packet.data_seq + 1
  unfolding process_packet
  expects-after rx mbuf packet e fresh = ground arith

  channel-IsRing :
      (next limit : ℕ) (fates : List (Option (List ℕ))) (vs : List CanonicalDataPacketView)
      (e : Emitted p next limit vs) (rx : ReceiverState) (history : List (List ℕ))
      → Framed fates
      → limit ≤ 2 ^ 64
      → (rx.data_seq_established ≡ true → rx.next_data_seq ≤ next)
      → length history + 2 ^ 16 * length vs < 2 ^ 64
      → IsRing p.max_frame k history rx.region
      → IsRing p.max_frame k
          (history ++ delivered p next limit fates vs e)
          (process_packets p order (2 ^ k - 1) rx (channel fates vs)).region
  unfolding channel delivered process_packets
  channel-IsRing next limit [] vs e rx history framed below fresh room ring =
      subst (λ t. IsRing p.max_frame k t rx.region) (sym (append-nil history)) ring
  channel-IsRing next limit (fate ∷ fates) [] e rx history framed below fresh room ring =
      subst (λ t. IsRing p.max_frame k t rx.region) (sym (append-nil history)) ring
  channel-IsRing next limit (none ∷ fates) (v ∷ vs) (n, least, most, d, e) rx history framed below
        fresh room ring =
      channel-IsRing (n + 1) limit fates vs e rx history framed below
        (λ est. omega (arith, fresh est)) (omega arith) ring
  channel-IsRing next limit (some outer ∷ fates) (v ∷ vs) (n, least, most, d, e) rx history framed
        below fresh room ring =
      let fresh_now : (rx.data_seq_established ≡ true → rx.next_data_seq ≤ n) =
        λ est. omega (arith, fresh est) in
      subst
        (λ t.
          IsRing p.max_frame k t
            (process_packets p order (2 ^ k - 1)
              (process_packet p order (2 ^ k - 1) rx (received outer v)) (channel fates vs)).region)
        (append_assoc history d.frames (delivered p (n + 1) limit fates vs e))
        (channel-IsRing (n + 1) limit fates vs e
          (process_packet p order (2 ^ k - 1) rx (received outer v)) (history ++ d.frames) framed.1
          below
          (λ _.
            expects-after rx (received outer v) _
              (parsed p order outer n v host framed.0 (omega arith) d) fresh_now)
          (omega (arith, length-append history d.frames, d.few))
          (process_packet-publishes p law order host k rx history outer n v framed.0 (omega arith)
            fresh_now d (omega (arith, d.few)) ring))

  -- From a well-formed sender state with balanced counters, over any passes with 1514 bytes wherever
  -- memory is reserved: if the link loses any of the packets that the port took and delivers the
  -- others in order behind 42 bytes each, to a receiver that expects no later number, the receiver's
  -- ring then stands for its former frames followed by those of the packets that came through, byte
  -- for byte and in order; sequence numbers and history being below 2^64.
  pub run_sender-delivers :
      (mask : ℕ) (batching : Bool) (st : SenderState) (turns : List Turn)
      (fates : List (Option (List ℕ))) (rx : ReceiverState) (history : List (List ℕ))
      → IsSender p st
      → IsAudited 0 st
      → AllReserve turns
      → st.next_data_seq + length turns < 2 ^ 64
      → Framed fates
      → (rx.data_seq_established ≡ true → rx.next_data_seq ≤ st.next_data_seq)
      → length history + 2 ^ 16 * length turns < 2 ^ 64
      → IsRing p.max_frame k history rx.region
      → (e : Emitted p st.next_data_seq
          (st.next_data_seq + length turns)
          (run_sender p mask batching st turns).sent)
        × IsRing p.max_frame k
            (history
              ++ delivered p st.next_data_seq
                  (st.next_data_seq + length turns)
                  fates
                  (run_sender p mask batching st turns).sent
                  e)
            (process_packets p order
              (2 ^ k - 1)
              rx
              (channel fates (run_sender p mask batching st turns).sent)).region
  run_sender-delivers mask batching st turns fates rx history sender audit memory small framed fresh
        room ring =
      let r = run_sender-SenderRun p law mask batching st turns sender audit memory small in
      (
        r.emitted,
        channel-IsRing _ _ fates _ r.emitted rx history framed (omega arith) fresh
            (omega (arith, room, length-Emitted p _ _ _ (omega arith) r.emitted)) ring,
      )
