-- ===== src/Pipeline/Wire.antt =====
-- A packet with its Ethernet, IPv4 and UDP headers on the wire, and the receiver behind it.
use mathlib.Core.Path.{ap₂}
use low_latency_data_transfe.Base.{
  ℕ, ◌+◌, ◌-◌, ◌^◌, ◌≤◌, ◌<◌, ◌≡◌, refl, sym, ap, ◌∙◌, List, ◌++◌, true, arith, length,
  length-append, length-take, length-take-le, concat, length-drop, take, drop, drop-append,
  take-append-drop, subst,
}
use low_latency_data_transfe.Bytes.Order.{ByteOrder, IsHostOrder}
use low_latency_data_transfe.Message.{Profile, IsProfile}
use low_latency_data_transfe.Builder.{CanonicalDataPacketView}
use low_latency_data_transfe.Builder.Header.{header_bytes}
use low_latency_data_transfe.Ring.Window.{IsRing}
use low_latency_data_transfe.Parser.{Mbuf, outer_header_size}
use low_latency_data_transfe.Receiver.{ReceiverState, process_packet}
use low_latency_data_transfe.Sender.Turns.{IsDataPacket}
use low_latency_data_transfe.Materializer.{Dpdk, IsDpdk, prepare_destination, finalize_data_packet}
use low_latency_data_transfe.Materializer.Envelope.{IsEnvelope, finalize_data_packet-IsEnvelope}
use low_latency_data_transfe.Pipeline.{received, process_packet-publishes}

-- The reserved packet with a canonical image behind the space for the headers.
abbrev pub reserved_packet : List ℕ → CanonicalDataPacketView → Mbuf
reserved_packet headers v = record { data_len = 1514; bytes = headers ++ v.bytes }

module _ (d : Dpdk) (local_mac next_hop_mac : List ℕ) (local_ipv4 receiver_ipv4 data_port : ℕ) where
  -- What the port is given.
  abbrev pub on_wire : List ℕ → CanonicalDataPacketView → Mbuf
  on_wire headers v =
      finalize_data_packet d (reserved_packet headers v)
        (prepare_destination d local_mac next_hop_mac local_ipv4 receiver_ipv4 data_port)
        v.packet_size

  module _ (law : IsDpdk d) (six : length local_mac ≡ 6) (six' : length next_hop_mac ≡ 6) where
    pub on_wire-received :
        (headers : List ℕ) (v : CanonicalDataPacketView)
        → length headers ≡ outer_header_size
        → 0 < length v.bytes
        → v.packet_size ≤ 1472
        → (outer : List ℕ) × (length outer ≡ outer_header_size)
          × (on_wire headers v ≡ received outer v)
    on_wire-received headers v len pos fits = (
      take 42 m.bytes,
      length-take 42 m.bytes (omega (arith, length-drop 42 m.bytes, ap length behind)),
      ap₂ mbuf e.data_len (sym (take-append-drop 42 m.bytes) ∙ ap (◌++◌ (take 42 m.bytes)) behind),
    )
      where
        mbuf : ℕ → List ℕ → Mbuf
        mbuf data_len bytes = record { data_len = data_len; bytes = bytes }

        m : Mbuf
        m = on_wire headers v

        e : IsEnvelope local_mac next_hop_mac (drop 42 (headers ++ v.bytes)) v.packet_size m
        e =
            finalize_data_packet-IsEnvelope d (reserved_packet headers v) local_mac next_hop_mac
              local_ipv4 receiver_ipv4 data_port v.packet_size law six six' refl
              (omega (arith, length-append headers v.bytes)) fits

        behind : drop 42 m.bytes ≡ v.bytes
        behind = e.image ∙ drop-append headers v.bytes 42 (sym len)

    module _ (p : Profile) (profile : IsProfile p) (order : ByteOrder) (host : IsHostOrder order)
        (k : ℕ) where
      -- A Data packet whose image stands behind 42 bytes, finished by finalize_data_packet with MAC
      -- addresses of six octets and received as it was put on the wire by a receiver that expects
      -- no later number, makes the receiver's ring stand for its former frames followed by those
      -- of the packet, sequence number and history being below 2^64.
      pub on_wire-publishes :
          (rx : ReceiverState) (history : List (List ℕ)) (headers : List ℕ) (data_seq : ℕ)
          (v : CanonicalDataPacketView)
          → length headers ≡ outer_header_size
          → data_seq < 2 ^ 64
          → (rx.data_seq_established ≡ true → rx.next_data_seq ≤ data_seq)
          → (f : IsDataPacket p data_seq v) → length history + length f.frames < 2 ^ 64
          → IsRing p.max_frame k history rx.region
          → IsRing p.max_frame k
              (history ++ f.frames)
              (process_packet p order (2 ^ k - 1) rx (on_wire headers v)).region
      on_wire-publishes rx history headers data_seq v len small fresh f room ring =
          let (outer, outer_len, e) = on_wire-received headers v len laid f.bound in
          subst
            (λ m.
              IsRing p.max_frame k (history ++ f.frames)
                (process_packet p order (2 ^ k - 1) rx m).region)
            (sym e)
            (process_packet-publishes p profile order host k rx history outer data_seq v outer_len
              small fresh f room ring)
        where
          laid : 0 < length v.bytes
          laid = omega (
            arith,
            length-take-le v.packet_size v.bytes,
            ap length f.image,
            length-append (header_bytes data_seq (length f.frames)) (concat f.frames),
          )
