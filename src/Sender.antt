-- ===== src/Sender.antt =====
-- src/sender_main.cpp: the loop of `run_sender`. Each pass gets what the world answers in it: the
-- stop flag, the source ring at each poll, the mbuf and its memory, and whether the port took the
-- packet.
pub mod Loop
pub mod Turns
pub mod Accounts
pub mod Audit
pub mod Run
pub mod Stops
use low_latency_data_transfe.Base.{
  ℕ, zero, suc, ◌+◌, ◌-◌, List, [], ◌∷◌, Bool, true, false, ◌&&◌, Option, none, some, ltb, ◌==◌,
  if◌then◌else◌, u64, sub64, drop,
}
use low_latency_data_transfe.Message.{Profile}
use low_latency_data_transfe.Builder.{
  SourceFrameView, CanonicalDataPacketView, RawDataPacketBuilder, raw_data_packet_builder,
  try_append, finalize, data_header_size,
}
use low_latency_data_transfe.Builder
use low_latency_data_transfe.Ring.{Snapshots}
use low_latency_data_transfe.Reader.{SenderShmReader, SenderShmReaderStatus, try_read}
use low_latency_data_transfe.Reader

-- `dpdk::DATA_PACKET_CANONICAL_CAPACITY` and `PreparedDestination::HEADER_SIZE`.
abbrev pub data_packet_canonical_capacity : ℕ
data_packet_canonical_capacity = 1472

abbrev pub outer_size : ℕ
outer_size = 42

pub record SenderDataCounters : Type 0 where
  pub frames_offered_to_packetization : ℕ
  pub mbuf_alloc_failures : ℕ
  pub frames_packetized : ℕ
  pub data_packets_built : ℕ
  pub data_payload_bytes : ℕ
  pub data_sequences_consumed : ℕ
  pub tx_packets_enqueued : ℕ
  pub tx_packets_unsent : ℕ

-- The locals of `run_sender` that live across passes. `carry_frame` points into the reader's buffer.
pub record SenderState : Type 0 where
  pub reader : SenderShmReader
  pub next_data_seq : ℕ
  pub data_counters : SenderDataCounters
  pub carry_frame : Option SourceFrameView
  pub stopping : Bool

-- The locals before the first pass.
abbrev pub start_sender : SenderShmReader → SenderState
start_sender reader = record {
  reader = reader;
  next_data_seq = 0;
  data_counters = record {
    frames_offered_to_packetization = 0;
    mbuf_alloc_failures = 0;
    frames_packetized = 0;
    data_packets_built = 0;
    data_payload_bytes = 0;
    data_sequences_consumed = 0;
    tx_packets_enqueued = 0;
    tx_packets_unsent = 0;
  };
  carry_frame = none;
  stopping = false;
}

-- What one poll inside a batch meets: the stop flag before it, and the ring.
pub record Poll : Type 0 where
  pub stop_requested : Bool
  pub snapshots : Snapshots

-- What one pass meets. `rte_pktmbuf_alloc` and `rte_pktmbuf_append` may fail; the latter gives the
-- memory of the packet, from its Ethernet header on.
pub record Turn : Type 0 where
  pub stop_requested : Bool
  pub first_poll : Snapshots
  pub mbuf_allocated : Bool
  pub packet_memory : Option (List ℕ)
  pub polls : ℕ → Poll
  pub sent : ℕ

-- The variables of the inner loop.
pub record Batch : Type 0 where
  pub reader : SenderShmReader
  pub builder : RawDataPacketBuilder
  pub carry_frame : Option SourceFrameView
  pub stopping : Bool
  pub offered : ℕ

pub data BatchStep : Type 0 where
  leave : Batch → BatchStep
  again : Batch → BatchStep

-- The frame that a poll delivered: carried over if a gap lies before it or it does not fit.
unfoldable pub offer : Batch → SourceFrameView → BatchStep
offer b frame =
    let b' = record b { offered = u64 (b.offered + 1) } in
    if frame.begins_after_source_gap
    then leave (record b' { carry_frame = some frame })
    else (let (status, builder) = try_append b.builder b.reader.buffer frame in
        elim status [
          | Builder.RawDataPacketBuildStatus.ok ↦ again (record b' { builder = builder })
          | Builder.RawDataPacketBuildStatus.output_too_small ↦
              leave (record b' { builder = builder; carry_frame = some frame })
        ])

-- `if (next.status != Ok) break;`, where `Ok` comes with a view.
unfoldable pub take_next : Batch → SenderShmReaderStatus → Option SourceFrameView → BatchStep
unfolding offer
take_next b Reader.SenderShmReaderStatus.ok (some frame) = offer b frame
take_next b Reader.SenderShmReaderStatus.ok none = leave b
take_next b Reader.SenderShmReaderStatus.empty view = leave b
take_next b Reader.SenderShmReaderStatus.lapped view = leave b
take_next b Reader.SenderShmReaderStatus.invalid view = leave b

-- A payload of 1450 bytes holds 60 frames of 24 bytes at most.
abbrev pub batch_fuel : ℕ
batch_fuel = 61

pub data Outcome : Type 0 where
  finished : SenderState → Outcome
  failed : SenderState → Outcome
  continued : SenderState → Outcome
  packet : SenderState → CanonicalDataPacketView → Outcome
  out_of_fuel : Outcome

-- What is left of a run: the locals, the packets that the port took, in order, `err`, and whether
-- the loop was left; if not, then it is still running behind the passes, and the rest is as it
-- stands so far.
pub record SenderEnd : Type 0 where
  pub state : SenderState
  pub sent : List CanonicalDataPacketView
  pub err : ℕ
  pub ended : Bool

-- From `builder.finalize()` to the end of the pass.
unfoldable pub emit : SenderState → Batch → ℕ → Outcome
emit st b sent =
    let canonical_data = finalize b.builder in
    let c = st.data_counters in
    packet
      (record {
        reader = b.reader;
        next_data_seq = u64 (st.next_data_seq + 1);
        data_counters = record c {
          frames_offered_to_packetization = b.offered;
          frames_packetized = u64 (c.frames_packetized + canonical_data.record_count);
          data_packets_built = u64 (c.data_packets_built + 1);
          data_payload_bytes =
              u64 (c.data_payload_bytes + sub64 canonical_data.packet_size data_header_size);
          data_sequences_consumed = u64 (c.data_sequences_consumed + 1);
          tx_packets_enqueued =
              if sent == 0 then c.tx_packets_enqueued else u64 (c.tx_packets_enqueued + 1);
          tx_packets_unsent =
              if sent == 0 then u64 (c.tx_packets_unsent + 1) else c.tx_packets_unsent;
        };
        carry_frame = b.carry_frame;
        stopping = b.stopping;
      })
      canonical_data

module _ (p : Profile) (mask : ℕ) where
  -- The body of the inner `while (true)`.
  unfoldable pub batch_step : Batch → Poll → BatchStep
  batch_step b poll =
      if poll.stop_requested
      then leave (record b { stopping = true })
      else (let (status, view, reader) = try_read p mask b.reader poll.snapshots in
          take_next (record b { reader = reader }) status view)

  -- The inner loop from poll `i` on; `none` means that the fuel ran out.
  unfoldable pub fill_batch : ℕ → (ℕ → Poll) → ℕ → Batch → Option Batch
  fill_batch zero polls i b = none
  fill_batch (suc fuel) polls i b = elim (batch_step b (polls i)) [
    | leave b' ↦ some b'
    | again b' ↦ fill_batch fuel polls (i + 1) b'
  ]

  -- From the construction of `builder` on, in the reserved memory.
  unfoldable pub build_packet : Bool → SenderState → Turn → SourceFrameView → List ℕ → Outcome
  unfolding emit
  build_packet batching_enabled st t first_frame memory =
      let b : Batch = record {
        reader = st.reader;
        builder =
            raw_data_packet_builder (drop outer_size memory) data_packet_canonical_capacity
              st.next_data_seq st.reader.buffer first_frame;
        carry_frame = st.carry_frame;
        stopping = st.stopping;
        offered = st.data_counters.frames_offered_to_packetization;
      } in
      if batching_enabled
      then (elim (fill_batch batch_fuel t.polls 0 b) [
        | none ↦ out_of_fuel
        | some b' ↦ emit st b' t.sent
      ])
      else emit st b t.sent

  -- From `rte_pktmbuf_alloc` on.
  unfoldable pub send_frame : Bool → SenderState → Turn → SourceFrameView → Outcome
  unfolding build_packet
  send_frame batching_enabled st t first_frame =
      if t.mbuf_allocated
      then (elim t.packet_memory [
        | none ↦ failed st
        | some memory ↦ build_packet batching_enabled st t first_frame memory
      ])
      else continued (record st {
        data_counters = record st.data_counters {
          mbuf_alloc_failures = u64 (st.data_counters.mbuf_alloc_failures + 1);
        };
      })

  -- The first frame of a packet that is not carried over.
  unfoldable pub first_read :
      Bool → SenderState → Turn → SenderShmReaderStatus → Option SourceFrameView → Outcome
  unfolding send_frame
  first_read batching_enabled st t Reader.SenderShmReaderStatus.ok (some frame) =
      send_frame batching_enabled
        (record st {
          data_counters = record st.data_counters {
            frames_offered_to_packetization =
                u64 (st.data_counters.frames_offered_to_packetization + 1);
          };
        })
        t frame
  first_read batching_enabled st t Reader.SenderShmReaderStatus.ok none = continued st
  first_read batching_enabled st t Reader.SenderShmReaderStatus.empty view = continued st
  first_read batching_enabled st t Reader.SenderShmReaderStatus.lapped view = continued st
  first_read batching_enabled st t Reader.SenderShmReaderStatus.invalid view = continued st

  -- A pass behind the test of `stop_requested`, by what is carried over.
  unfoldable pub sender_pass : Bool → SenderState → Turn → Option SourceFrameView → Outcome
  sender_pass batching_enabled st t (some frame) =
      send_frame batching_enabled (record st { carry_frame = none }) t frame
  sender_pass batching_enabled st t none =
      if st.stopping
      then finished st
      else (let (status, view, reader) = try_read p mask st.reader t.first_poll in
          first_read batching_enabled (record st { reader = reader }) t status view)

  -- One pass of the outer `while (true)`.
  unfoldable pub sender_turn : Bool → SenderState → Turn → Outcome
  sender_turn batching_enabled st t =
      sender_pass batching_enabled
        (record st { stopping = if t.stop_requested then true else st.stopping }) t st.carry_frame

  -- The outer loop over the passes that there are; it is left where a pass leaves it, and else still
  -- running behind them. A packet that the port did not take is freed.
  unfoldable pub run_sender : Bool → SenderState → List Turn → SenderEnd
  unfolding sender_turn
  run_sender batching_enabled st [] = record { state = st; sent = []; err = 0; ended = false }
  run_sender batching_enabled st (t ∷ turns) = elim (sender_turn batching_enabled st t) [
    | finished st' ↦ record { state = st'; sent = []; err = 0; ended = true }
    | failed st' ↦ record { state = st'; sent = []; err = 1; ended = true }
    | continued st' ↦ run_sender batching_enabled st' turns
    | packet st' v ↦
        let end = run_sender batching_enabled st' turns in
        record end { sent = if t.sent == 0 then end.sent else v ∷ end.sent }
    | out_of_fuel ↦ record { state = st; sent = []; err = 0; ended = false }
  ]
