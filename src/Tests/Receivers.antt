-- ===== src/Tests/Receivers.antt =====
-- The receiver's loop at three packets: 5, a copy of it, and 8.
use low_latency_data_transfe.Base.{
  ℕ, ◌+◌, ◌≡◌, ◌≤◌, refl, List, [], ◌∷◌, ◌++◌, arith, replicate, some, none, true, false, u64,
  concat,
}
use low_latency_data_transfe.Builder.{CanonicalDataPacketView}
use low_latency_data_transfe.Builder.Header.{header_bytes}
use low_latency_data_transfe.Parser.{Mbuf, try_parse_canonical_data_packet, starts_with}
use low_latency_data_transfe.Message.Compact.{compact, load_header, frame_size}
use low_latency_data_transfe.Ring.{attach, publish}
use low_latency_data_transfe.Receiver.{
  ReceiverState, start_receiver, process_packet, process_packets, run_receiver, process_data,
  count_gap, count_accepted, count_packet,
}
use low_latency_data_transfe.Receiver.Writer.{write, write_frames}
use low_latency_data_transfe.Receiver.Branches.{process_packet-stale, process_packet-invalid}
use low_latency_data_transfe.Receiver.Counted.{
  IsCounted, first_of_bursts, run_receiver-IsCounted, start_receiver-IsCounted,
}
use low_latency_data_transfe.Receiver.Bursts.{with_bursts, run_receiver-concat}
use low_latency_data_transfe.Receiver.Replay.{no_replay}
use low_latency_data_transfe.Ring.Window.{IsRing}
use low_latency_data_transfe.Message.Compact.{compact-IsProfile}
use low_latency_data_transfe.Sender.Turns.{IsDataPacket}
use low_latency_data_transfe.Pipeline.{received, process_packet-publishes}
use low_latency_data_transfe.Tests.Data.{
  bbo, bbo-IsFrame, ring₀-IsRing, little_endian-IsHostOrder, ring₀, little_endian, swap16, swap64,
}

abbrev mbuf_of : ℕ → ℕ → Mbuf
mbuf_of data_seq n = record {
  data_len = 112;
  bytes = replicate 42 0 ++ (header_bytes data_seq 1 ++ bbo n);
}

abbrev view_of : ℕ → ℕ → CanonicalDataPacketView
view_of data_seq n = record {
  bytes = header_bytes data_seq 1 ++ bbo n;
  packet_size = 70;
  data_seq = data_seq;
  record_count = 1;
}

abbrev runt : Mbuf
runt = record { data_len = 60; bytes = replicate 60 0 }

abbrev start : ReceiverState
start = start_receiver ring₀

abbrev bursts : List (List Mbuf)
bursts = (mbuf_of 5 7 ∷ mbuf_of 5 7 ∷ []) ∷ [] ∷ (mbuf_of 8 8 ∷ runt ∷ []) ∷ []

abbrev done : ReceiverState
done = run_receiver compact little_endian 1 start bursts

run_counts :
    (done.counters.rx_packets ≡ 4)
    × (done.counters.data_packets_accepted ≡ 2)
    × (done.counters.stale_data_packets ≡ 1)
    × (done.counters.invalid_lldt_packets ≡ 1)
    × (done.counters.data_packets_missing ≡ 2)
    × (done.counters.empty_rx_bursts ≡ 1)
    × (done.next_data_seq ≡ 9)
    × (done.region.write_index ≡ 2)
unfolding run_receiver process_packets process_packet process_data count_packet count_gap
    count_accepted try_parse_canonical_data_packet starts_with swap16 swap64 write write_frames
    load_header frame_size attach publish
run_counts = (refl, refl, refl, refl, refl, refl, refl, refl)

-- The number 5 is the first.
first_five : first_of_bursts little_endian none bursts ≡ some 5
unfolding try_parse_canonical_data_packet starts_with swap16 swap64
first_five = refl

run_receiver-IsCounted_example : IsCounted (first_of_bursts little_endian none bursts) done
run_receiver-IsCounted_example =
    run_receiver-IsCounted compact little_endian 1 none start bursts
      (start_receiver-IsCounted ring₀)

parsed : try_parse_canonical_data_packet little_endian (mbuf_of 5 7) ≡ some (view_of 5 7)
unfolding try_parse_canonical_data_packet starts_with swap16 swap64
parsed = refl

no_replay_example :
    let later = process_packet compact little_endian 1 start (mbuf_of 5 7) in
    let last = process_packet compact little_endian 1 later (mbuf_of 5 7) in
    (last.region ≡ later.region)
    × (last.next_data_seq ≡ later.next_data_seq)
    × (last.counters.data_packets_accepted ≡ later.counters.data_packets_accepted)
unfolding run_receiver
no_replay_example =
    no_replay compact little_endian 1 start (mbuf_of 5 7) (mbuf_of 5 7) [] (view_of 5 7)
      (view_of 5 7) parsed parsed (omega arith) not_established (omega arith) tt
  where
    not_established : start.data_seq_established ≡ true → start.next_data_seq ≤ 5
    not_established e = omega arith

not_parsed : try_parse_canonical_data_packet little_endian runt ≡ none
unfolding try_parse_canonical_data_packet starts_with
not_parsed = refl

process_packet-invalid_example :
    let after = process_packet compact little_endian 1 start runt in
    (after.counters.invalid_lldt_packets ≡ u64 (0 + 1))
    × (after.region ≡ start.region)
    × (after.next_data_seq ≡ 0)
    × (after.data_seq_established ≡ false)
    × (after.counters.data_packets_accepted ≡ 0)
process_packet-invalid_example =
    process_packet-invalid compact little_endian 1 start runt not_parsed

-- A run that expects packet 6.
abbrev expecting : ReceiverState
expecting = record start { next_data_seq = 6; data_seq_established = true }

process_packet-stale_example :
    let after = process_packet compact little_endian 1 expecting (mbuf_of 5 7) in
    (after.counters.stale_data_packets ≡ u64 (0 + 1))
    × (after.region ≡ expecting.region)
    × (after.next_data_seq ≡ 6)
    × (after.data_seq_established ≡ true)
    × (after.counters.data_packets_accepted ≡ 0)
process_packet-stale_example =
    process_packet-stale compact little_endian 1 expecting (mbuf_of 5 7) (view_of 5 7) parsed refl
      (omega arith)

run_receiver-concat_example :
    run_receiver compact little_endian 1 start bursts
    ≡ with_bursts
        (process_packets compact little_endian 1 start (concat bursts))
        (u64 (0 + 3))
        (u64 (0 + 1))
run_receiver-concat_example =
    run_receiver-concat compact little_endian 1 bursts start (omega arith) (omega arith)

-- The packet with frame 7, as the sender would have built it.
abbrev is_packet : IsDataPacket compact 5 (view_of 5 7)
unfolding load_header frame_size
is_packet = record {
  frames = bbo 7 ∷ [];
  some_frame = omega arith;
  complete = (bbo-IsFrame 7, tt);
  seq = refl;
  count = refl;
  few = omega arith;
  size = refl;
  bound = omega arith;
  image = refl;
}

process_packet-publishes_example :
    IsRing 96 1
      (is_packet.frames)
      (process_packet compact little_endian 1 start
        (received (replicate 42 0) (view_of 5 7))).region
unfolding load_header frame_size
process_packet-publishes_example =
    process_packet-publishes compact compact-IsProfile little_endian little_endian-IsHostOrder 1
      start [] (replicate 42 0) 5 (view_of 5 7) refl (omega arith) (λ e. cc) is_packet (omega arith)
      ring₀-IsRing
