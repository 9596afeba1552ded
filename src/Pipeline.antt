-- ===== src/Pipeline.antt =====
-- Sender and receiver together: what one packet carries from ring to ring.
pub mod Channel
pub mod Wire
pub mod Programs
pub mod Received
pub mod Live
use low_latency_data_transfe.Base.{
  ℕ, ◌+◌, ◌-◌, ◌^◌, ◌≤◌, ◌<◌, ◌≡◌, refl, sym, ap, ◌∙◌, List, ◌++◌, Bool, true, some, arith, length,
  concat, drop, take-append-drop, append_assoc, subst,
}
use low_latency_data_transfe.Bytes.Order.{ByteOrder, IsHostOrder}
use low_latency_data_transfe.Message.{Profile, IsProfile}
use low_latency_data_transfe.Builder.{CanonicalDataPacketView}
use low_latency_data_transfe.Builder.Header.{header_bytes}
use low_latency_data_transfe.Ring.Window.{IsRing}
use low_latency_data_transfe.Parser.{Mbuf, outer_header_size, try_parse_canonical_data_packet}
use low_latency_data_transfe.Parser.Round.{parse-header_bytes}
use low_latency_data_transfe.Receiver.{ReceiverState, process_packet}
use low_latency_data_transfe.Receiver.Branches.{process_packet-region}
use low_latency_data_transfe.Receiver.Writer.{write-IsRing}
use low_latency_data_transfe.Sender.{
  SenderState, Turn, packet, sender_turn, outer_size, data_packet_canonical_capacity,
}
use low_latency_data_transfe.Sender.Turns.{IsSender, IsDataPacket, TurnGood, sender_turn-TurnGood}

-- The packet as it is received: its outer headers, and the canonical image behind them.
abbrev pub received : List ℕ → CanonicalDataPacketView → Mbuf
received outer v = record { data_len = outer_header_size + v.packet_size; bytes = outer ++ v.bytes }

-- The parser's view of a packet that the sender built.
pub parsed :
    (p : Profile) (order : ByteOrder) (outer : List ℕ) (data_seq : ℕ) (v : CanonicalDataPacketView)
    → IsHostOrder order
    → length outer ≡ outer_header_size
    → data_seq < 2 ^ 64
    → (d : IsDataPacket p data_seq v)
    → try_parse_canonical_data_packet order (received outer v)
      ≡ some (record {
        bytes =
            header_bytes data_seq (length d.frames)
            ++ (concat d.frames ++ drop v.packet_size v.bytes);
        packet_size = outer_header_size + v.packet_size - outer_header_size;
        data_seq = data_seq;
        record_count = length d.frames;
      })
parsed p order outer data_seq v o len small d =
    ap
      (λ t.
        try_parse_canonical_data_packet order
          (record { data_len = outer_header_size + v.packet_size; bytes = outer ++ t }))
      laid
    ∙ parse-header_bytes order outer (concat d.frames ++ drop v.packet_size v.bytes) data_seq
        (length d.frames) (outer_header_size + v.packet_size) o len (omega (arith, d.size)) small
        d.few
  where
    laid :
        v.bytes
        ≡ header_bytes data_seq (length d.frames) ++ (concat d.frames ++ drop v.packet_size v.bytes)
    laid =
        sym (take-append-drop v.packet_size v.bytes)
        ∙ ap (λ t. t ++ drop v.packet_size v.bytes) d.image
        ∙ append_assoc (header_bytes data_seq (length d.frames)) (concat d.frames)
            (drop v.packet_size v.bytes)

module _ (p : Profile) (law : IsProfile p) (order : ByteOrder) (host : IsHostOrder order)
    (k : ℕ) where
  -- The receiver publishes exactly the frames of the packet, in their order.
  pub process_packet-publishes :
      (st : ReceiverState) (history : List (List ℕ)) (outer : List ℕ) (data_seq : ℕ)
      (v : CanonicalDataPacketView)
      → length outer ≡ outer_header_size
      → data_seq < 2 ^ 64
      → (st.data_seq_established ≡ true → st.next_data_seq ≤ data_seq)
      → (d : IsDataPacket p data_seq v) → length history + length d.frames < 2 ^ 64
      → IsRing p.max_frame k history st.region
      → IsRing p.max_frame k
          (history ++ d.frames)
          (process_packet p order (2 ^ k - 1) st (received outer v)).region
  process_packet-publishes st history outer data_seq v len small fresh d room ring =
      subst (IsRing p.max_frame k (history ++ d.frames))
        (sym (
          process_packet-region p order (2 ^ k - 1) st (received outer v) _
            (parsed p order outer data_seq v host len small d) fresh))
        (write-IsRing p law k history st.region d.frames (header_bytes data_seq (length d.frames))
          (drop v.packet_size v.bytes) _ refl refl refl d.complete room ring)

  -- A packet that a pass emits, from a well-formed sender state with 1514 bytes reserved, holds
  -- complete frames; received behind any 42 bytes of outer headers by a receiver that expects no
  -- later number, it makes the receiver's ring stand for its former frames followed by those of
  -- the packet, byte for byte and in order, sequence number and history being below 2^64.
  pub sender_turn-delivers :
      (mask : ℕ) (batching : Bool) (st st' : SenderState) (t : Turn) (v : CanonicalDataPacketView)
      (rx : ReceiverState) (history : List (List ℕ)) (outer : List ℕ)
      → IsSender p st
      → ((m : List ℕ)
          → t.packet_memory ≡ some m
          → length m ≡ outer_size + data_packet_canonical_capacity)
      → sender_turn p mask batching st t ≡ packet st' v
      → length outer ≡ outer_header_size
      → st.next_data_seq < 2 ^ 64
      → (rx.data_seq_established ≡ true → rx.next_data_seq ≤ st.next_data_seq)
      → length history + 2 ^ 16 < 2 ^ 64
      → IsRing p.max_frame k history rx.region
      → (d : IsDataPacket p st.next_data_seq v) × IsRing p.max_frame k
          (history ++ d.frames)
          (process_packet p order (2 ^ k - 1) rx (received outer v)).region
  sender_turn-delivers mask batching st st' t v rx history outer sender memory e len small fresh
        room ring =
      let (kept, d, next) =
        subst (TurnGood p st.next_data_seq) e
          (sender_turn-TurnGood p law mask batching st t sender memory) in
      (
        d,
        process_packet-publishes rx history outer st.next_data_seq v len small fresh d
            (omega (arith, d.few)) ring,
      )
