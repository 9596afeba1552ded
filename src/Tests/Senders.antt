-- ===== src/Tests/Senders.antt =====
-- The sender at the ring of two slots: its reads, and a pass that sends two frames in a packet.
use mathlib.Core.Option.{some-injective}
use low_latency_data_transfe.Base.{
  ℕ, zero, suc, subst, get_elem?, ◌+◌, ◌-◌, ◌≡◌, refl, sym, ap, u64, List, [], ◌∷◌, ◌++◌, arith,
  replicate, length, some, none, Option, true, false, Bool,
}
use low_latency_data_transfe.Builder.{
  SourceFrameView, CanonicalDataPacketView, raw_data_packet_builder, try_append, finalize,
}
use low_latency_data_transfe.Builder.Image.{raw_data_packet_builder-Builds}
use low_latency_data_transfe.Message.Compact.{compact, compact-IsProfile, load_header, frame_size}
use low_latency_data_transfe.Ring.{still, attach, publish, reset_seqs, read, copy_frame}
use low_latency_data_transfe.Ring.Window.{IsRing}
use low_latency_data_transfe.Reader.{
  SenderShmReader, zero_input_counters, Result, lapped, empty, try_read, ok,
}
use low_latency_data_transfe.Reader
use low_latency_data_transfe.Reader.Admits.{Admitted, try_read-Admitted}
use low_latency_data_transfe.Reader.Ringed.{
  Delivers, try_read-Delivers, try_read-lapped, try_read-empty,
}
use low_latency_data_transfe.Reader.Watched.{Meets, try_read-Meets}
use low_latency_data_transfe.Ring.Loads.{snapshots}
use low_latency_data_transfe.Receiver.Writer.{IsFrame}
use low_latency_data_transfe.Tests.Rings.{loads}
use low_latency_data_transfe.Sender
use low_latency_data_transfe.Sender.{
  SenderState, SenderDataCounters, Turn, Poll, Batch, Outcome, packet, finished, failed, continued,
  out_of_fuel, sender_turn, fill_batch,
}
use low_latency_data_transfe.Sender.Loop.{IsBatch, fill_batch-IsBatch}
use low_latency_data_transfe.Sender.Turns.{IsSender, TurnGood, sender_turn-TurnGood, IsDataPacket}
use low_latency_data_transfe.Receiver.{start_receiver, process_packet}
use low_latency_data_transfe.Pipeline.{received, sender_turn-delivers}
use low_latency_data_transfe.Tests.Data.{
  bbo, bbo-IsFrame, ring₀, ring₂, ring₃, ring₀-IsRing, ring₂-IsRing, ring₃-IsRing, little_endian,
  little_endian-IsHostOrder,
}

-- A reader that was attached before the first frame came.
abbrev pub reader : SenderShmReader
reader = record {
  read_index = 0;
  prev_valid = 0;
  has_prev_valid = false;
  buffer = replicate 96 0;
  counters = zero_input_counters;
}

reader-Delivers : Delivers compact reader (bbo 7) (try_read compact 1 reader (still ring₂))
unfolding load_header frame_size
reader-Delivers =
    try_read-Delivers compact compact-IsProfile 1 (bbo 7 ∷ bbo 8 ∷ []) ring₂ reader (bbo 7)
      ring₂-IsRing (omega arith) (omega arith) (omega arith) refl (bbo-IsFrame 7) refl

complete : (j : ℕ) (f : List ℕ) → get_elem? (bbo 7 ∷ bbo 8 ∷ []) j ≡ some f → IsFrame compact f
complete zero f h = subst (IsFrame compact) (some-injective (bbo 7) f h) (bbo-IsFrame 7)
complete (suc zero) f h = subst (IsFrame compact) (some-injective (bbo 8) f h) (bbo-IsFrame 8)
complete (suc (suc j)) f h = absurd (grind arith)

-- Frame 8 is read while frame 9 is being stored over frame 7.
abbrev behind : SenderShmReader
behind = record reader { read_index = 1 }

try_read-Meets_example :
    Meets compact behind (bbo 7 ∷ bbo 8 ∷ []) (try_read compact 1 behind (snapshots 1 96 loads))
unfolding load_header frame_size
try_read-Meets_example =
    try_read-Meets compact compact-IsProfile 1 loads behind ring₂-IsRing (omega arith) (omega arith)
      (omega arith) complete refl

try_read-lapped_example :
    let (status, view, s') = try_read compact 1 reader (still ring₃) in
    (status ≡ lapped)
    × (view ≡ none)
    × (s'.read_index + 2 ≡ 3)
    × (s'.counters.lapped_frames_skipped ≡ u64 (0 + (s'.read_index - 0)))
    × (s'.counters.lapped_events ≡ u64 (0 + 1))
    × (s'.buffer ≡ reader.buffer)
unfolding load_header frame_size
try_read-lapped_example =
    try_read-lapped compact compact-IsProfile 1 (bbo 7 ∷ bbo 8 ∷ bbo 9 ∷ []) ring₃ reader
      ring₃-IsRing (omega arith) (omega arith)

try_read-empty_example : try_read compact 1 reader (still ring₀) ≡ (
  empty,
  none,
  record reader { counters = record reader.counters { empty_polls = u64 (0 + 1) } },
)
unfolding load_header frame_size
try_read-empty_example =
    try_read-empty compact compact-IsProfile 1 [] ring₀ reader ring₀-IsRing (omega arith) refl

-- The reader behind frame 7, which is the first valid one.
abbrev second : SenderShmReader
second = (try_read compact 1 reader (still ring₂)).2

abbrev view : ℕ → SourceFrameView
view n = record { frame_size = 48; source_seq_id = n; begins_after_source_gap = false }

reads_two : (try_read compact 1 second (still ring₂)).1 ≡ some (view 8)
unfolding try_read Reader.handle Reader.admit Reader.classify Reader.count_read read copy_frame
    attach publish load_header frame_size reset_seqs
reads_two = refl

try_read-Admitted_example : Admitted compact reader second (view 7)
unfolding try_read Reader.handle Reader.admit Reader.classify Reader.count_read read copy_frame
    attach publish load_header frame_size reset_seqs
try_read-Admitted_example = try_read-Admitted compact 1 reader second (still ring₂) (view 7) refl

-- A pass that starts on an idle link: two frames are there, and the third poll finds none.
abbrev zero_data_counters : SenderDataCounters
zero_data_counters = record {
  frames_offered_to_packetization = 0;
  mbuf_alloc_failures = 0;
  frames_packetized = 0;
  data_packets_built = 0;
  data_payload_bytes = 0;
  data_sequences_consumed = 0;
  tx_packets_enqueued = 0;
  tx_packets_unsent = 0;
}

abbrev pub idle : SenderState
idle = record {
  reader = reader;
  next_data_seq = 0;
  data_counters = zero_data_counters;
  carry_frame = none;
  stopping = false;
}

abbrev poll : ℕ → Poll
poll i = record { stop_requested = false; snapshots = still ring₂ }

abbrev pub turn : Turn
turn = record {
  stop_requested = false;
  first_poll = still ring₂;
  mbuf_allocated = true;
  packet_memory = some (replicate 1514 0);
  polls = poll;
  sent = 1;
}

pub idle-IsSender : IsSender compact idle
unfolding load_header frame_size
idle-IsSender = record { buffer = refl; carry = tt }

pub packet_size : (m : List ℕ) → turn.packet_memory ≡ some m → length m ≡ 1514
packet_size m e = ap (λ o. length (get_or_else o)) (sym e)
  where
    get_or_else : Option (List ℕ) → List ℕ
    get_or_else (some l) = l
    get_or_else none = []

sender_turn-TurnGood_example : TurnGood compact 0 (sender_turn compact 1 true idle turn)
sender_turn-TurnGood_example =
    sender_turn-TurnGood compact compact-IsProfile 1 true idle turn idle-IsSender packet_size

abbrev is_packet : Outcome → Bool
is_packet (packet st v) = true
is_packet (finished st) = false
is_packet (failed st) = false
is_packet (continued st) = false
is_packet out_of_fuel = false

abbrev state_of : Outcome → SenderState
state_of (packet st v) = st
state_of (finished st) = st
state_of (failed st) = st
state_of (continued st) = st
state_of out_of_fuel = idle

abbrev no_packet : CanonicalDataPacketView
no_packet = record { bytes = []; packet_size = 0; data_seq = 0; record_count = 0 }

abbrev sent_by : Outcome → CanonicalDataPacketView
sent_by (packet st v) = v
sent_by (finished st) = no_packet
sent_by (failed st) = no_packet
sent_by (continued st) = no_packet
sent_by out_of_fuel = no_packet

packet_cases : (o : Outcome) → is_packet o ≡ true → o ≡ packet (state_of o) (sent_by o)
packet_cases (packet st v) e = refl
packet_cases (finished st) e = cc
packet_cases (failed st) e = cc
packet_cases (continued st) e = cc
packet_cases out_of_fuel e = cc

abbrev pub outcome : Outcome
outcome = sender_turn compact 1 true idle turn

emits : is_packet outcome ≡ true
unfolding sender_turn Sender.sender_pass Sender.first_read Sender.send_frame Sender.build_packet
    Sender.emit fill_batch Sender.batch_step Sender.take_next Sender.offer try_append
    raw_data_packet_builder finalize try_read Reader.handle Reader.admit Reader.classify
    Reader.count_read read copy_frame attach publish load_header frame_size reset_seqs
emits = refl

carries_two : ((sent_by outcome).record_count ≡ 2) × ((sent_by outcome).packet_size ≡ 118)
unfolding sender_turn Sender.sender_pass Sender.first_read Sender.send_frame Sender.build_packet
    Sender.emit fill_batch Sender.batch_step Sender.take_next Sender.offer try_append
    raw_data_packet_builder finalize try_read Reader.handle Reader.admit Reader.classify
    Reader.count_read read copy_frame attach publish load_header frame_size reset_seqs
carries_two = (refl, refl)

sender_turn-delivers_example :
    (d : IsDataPacket compact 0 (sent_by outcome)) × IsRing 96 1
      ([] ++ d.frames)
      (process_packet compact little_endian 1
        (start_receiver ring₀)
        (received (replicate 42 0) (sent_by outcome))).region
unfolding load_header frame_size
sender_turn-delivers_example =
    sender_turn-delivers compact compact-IsProfile little_endian little_endian-IsHostOrder 1 1 true
      idle (state_of outcome) turn (sent_by outcome) (start_receiver ring₀) [] (replicate 42 0)
      idle-IsSender packet_size (packet_cases outcome emits) refl (omega arith) (λ e. cc)
      (omega arith) ring₀-IsRing

-- The batch of the packet that begins with frame 7.
abbrev begun : Batch
begun = record {
  reader = second;
  builder = raw_data_packet_builder (replicate 200 0) 200 5 (bbo 7) (view 7);
  carry_frame = none;
  stopping = false;
  offered = 1;
}

begun-IsBatch : IsBatch compact 200 5 begun
unfolding try_read Reader.handle Reader.admit Reader.classify Reader.count_read read copy_frame
    attach publish load_header frame_size reset_seqs
begun-IsBatch = record {
  frames = bbo 7 ∷ [];
  some_frame = omega arith;
  builds =
      raw_data_packet_builder-Builds 200 5 (bbo 7) (view 7) (replicate 200 0) refl (omega arith)
        (omega arith) (omega arith);
  complete = (bbo-IsFrame 7, tt);
  buffer = refl;
  carry = tt;
}

fill_batch-IsBatch_example :
    (b' : Batch) × (fill_batch compact 1 9 poll 0 begun ≡ some b') × IsBatch compact 200 5 b'
unfolding raw_data_packet_builder
fill_batch-IsBatch_example =
    fill_batch-IsBatch compact compact-IsProfile 200 5 1 9 poll 0 begun begun-IsBatch refl
      (omega arith)
