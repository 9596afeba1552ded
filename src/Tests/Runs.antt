-- ===== src/Tests/Runs.antt =====
-- A run of the sender of two passes, a link that delivers its first packet, and the wire.
use low_latency_data_transfe.Base.{
  length, ◌≤◌, ◌≡◌, ℕ, refl, List, [], ◌∷◌, ◌++◌, Option, some, none, arith, replicate, true,
}
use low_latency_data_transfe.Builder.{CanonicalDataPacketView}
use low_latency_data_transfe.Builder.Header.{header_bytes}
use low_latency_data_transfe.Message.Compact.{compact, compact-IsProfile, load_header, frame_size}
use low_latency_data_transfe.Ring.Window.{IsRing}
use low_latency_data_transfe.Sender.{SenderState, Turn, sender_turn, run_sender}
use low_latency_data_transfe.Sender.Audit.{IsAudited, OutcomeAudited, sender_turn-Audited}
use low_latency_data_transfe.Sender.Run.{SenderRun, Emitted, run_sender-SenderRun}
use low_latency_data_transfe.Sender.Stops.{run_sender-stops}
use low_latency_data_transfe.Ring.{still}
use low_latency_data_transfe.Sender.Turns.{IsDataPacket}
use low_latency_data_transfe.Receiver.{start_receiver, process_packet, process_packets}
use low_latency_data_transfe.Pipeline.Channel.{channel, delivered, run_sender-delivers}
use low_latency_data_transfe.Pipeline.Wire.{on_wire, on_wire-publishes}
use low_latency_data_transfe.Tests.Data.{
  bbo, bbo-IsFrame, ring₀, ring₀-IsRing, little_endian, little_endian-IsHostOrder, ring₂,
}
use low_latency_data_transfe.Tests.Senders.{idle, idle-IsSender, turn, packet_size}
use low_latency_data_transfe.Tests.Envelopes.{dpdk, dpdk-IsDpdk, local_mac, next_hop_mac}

idle-IsAudited : IsAudited 0 idle
idle-IsAudited = record {
  built = refl;
  consumed = refl;
  transmitted = refl;
  offered = refl;
  read = refl;
}

abbrev pub turns : List Turn
turns = turn ∷ turn ∷ []

sender_turn-Audited_example : OutcomeAudited (sender_turn compact 1 true idle turn)
unfolding load_header frame_size
sender_turn-Audited_example =
    sender_turn-Audited compact 1 true idle turn (omega arith) tt idle-IsAudited

run_sender-SenderRun_example : SenderRun compact 0 2 (run_sender compact 1 true idle turns)
run_sender-SenderRun_example =
    run_sender-SenderRun compact compact-IsProfile 1 true idle turns idle-IsSender idle-IsAudited
      (packet_size, (packet_size, tt)) (omega arith)

-- The stop flag is set while a frame is carried over.
abbrev stopping : Turn
stopping = record turn {
  stop_requested = true;
  polls = λ i. record { stop_requested = true; snapshots = still ring₂ };
}

abbrev holding : SenderState
holding = record idle {
  carry_frame =
      some (record { frame_size = 48; source_seq_id = 0; begins_after_source_gap = true });
}

run_sender-stops_example :
    let end = run_sender compact 1 true holding (stopping ∷ turn ∷ turns) in
    (end ≡ run_sender compact 1 true holding (stopping ∷ turn ∷ []))
    × (length end.sent ≤ 1)
    × (end.state.carry_frame ≡ none)
    × (end.state.stopping ≡ true)
    × (end.ended ≡ true)
run_sender-stops_example = run_sender-stops compact 1 true holding stopping turn turns refl refl

abbrev pub fates : List (Option (List ℕ))
fates = some (replicate 42 0) ∷ none ∷ []

run_sender-delivers_example :
    (e : Emitted compact 0 2 (run_sender compact 1 true idle turns).sent) × IsRing 96 1
      ([] ++ delivered compact 0 2 fates (run_sender compact 1 true idle turns).sent e)
      (process_packets compact little_endian 1
        (start_receiver ring₀)
        (channel fates (run_sender compact 1 true idle turns).sent)).region
unfolding load_header frame_size
run_sender-delivers_example =
    run_sender-delivers compact compact-IsProfile little_endian little_endian-IsHostOrder 1 1 true
      idle turns fates (start_receiver ring₀) [] idle-IsSender idle-IsAudited
      (packet_size, (packet_size, tt)) (omega arith) (refl, tt) (λ e. cc) (omega arith) ring₀-IsRing

-- A packet of one frame.
abbrev one : CanonicalDataPacketView
one = record { bytes = header_bytes 3 1 ++ bbo 7; packet_size = 70; data_seq = 3; record_count = 1 }

one-IsDataPacket : IsDataPacket compact 3 one
one-IsDataPacket = record {
  frames = bbo 7 ∷ [];
  some_frame = omega arith;
  complete = (bbo-IsFrame 7, tt);
  seq = refl;
  count = refl;
  few = omega arith;
  size = refl;
  bound = omega arith;
  image = refl;
}

on_wire-publishes_example :
    IsRing 96 1
      ([] ++ bbo 7 ∷ [])
      (process_packet compact little_endian 1
        (start_receiver ring₀)
        (on_wire dpdk local_mac next_hop_mac 0x0100000a 0x0200000a 443 (replicate 42 0) one)).region
unfolding load_header frame_size one-IsDataPacket
on_wire-publishes_example =
    on_wire-publishes dpdk local_mac next_hop_mac 0x0100000a 0x0200000a 443 dpdk-IsDpdk refl refl
      compact compact-IsProfile little_endian little_endian-IsHostOrder 1 (start_receiver ring₀) []
      (replicate 42 0) 3 one refl (omega arith) (λ e. cc) one-IsDataPacket (omega arith)
      ring₀-IsRing
