-- ===== src/Receiver.antt =====
-- src/receiver_main.cpp: the loop of `run_receiver`, over the bursts that the port delivers. The
-- writer of src/receiver_shm_writer.cpp is the child `Writer`.
pub mod Writer
pub mod Branches
pub mod Counted
pub mod Replay
pub mod Bursts
use low_latency_data_transfe.Base.{
  ℕ, ◌+◌, ◌-◌, List, [], ◌∷◌, Bool, true, false, Option, none, some, ltb, ◌==◌, if◌then◌else◌, u64,
  sub64, length,
}
use low_latency_data_transfe.Bytes.Order.{ByteOrder}
use low_latency_data_transfe.Message.{Profile}
use low_latency_data_transfe.Builder.{CanonicalDataPacketView}
use low_latency_data_transfe.Ring.{Region}
use low_latency_data_transfe.Parser.{Mbuf, try_parse_canonical_data_packet}
use Writer.{write}

pub record ReceiverCounters : Type 0 where
  pub rx_bursts : ℕ
  pub empty_rx_bursts : ℕ
  pub rx_packets : ℕ
  pub rx_bytes : ℕ
  pub invalid_lldt_packets : ℕ
  pub stale_data_packets : ℕ
  pub data_gap_events : ℕ
  pub data_packets_missing : ℕ
  pub data_packets_accepted : ℕ
  pub frames_published : ℕ
  pub frame_bytes_published : ℕ

-- The locals of `run_receiver`, with the region that `writer` owns.
pub record ReceiverState : Type 0 where
  pub data_seq_established : Bool
  pub next_data_seq : ℕ
  pub counters : ReceiverCounters
  pub region : Region

abbrev pub zero_counters : ReceiverCounters
zero_counters = record {
  rx_bursts = 0;
  empty_rx_bursts = 0;
  rx_packets = 0;
  rx_bytes = 0;
  invalid_lldt_packets = 0;
  stale_data_packets = 0;
  data_gap_events = 0;
  data_packets_missing = 0;
  data_packets_accepted = 0;
  frames_published = 0;
  frame_bytes_published = 0;
}

abbrev pub start_receiver : Region → ReceiverState
start_receiver region = record {
  data_seq_established = false;
  next_data_seq = 0;
  counters = zero_counters;
  region = region;
}

-- `++rx_packets; rx_bytes += mbuf->data_len`
unfoldable pub count_packet : ReceiverCounters → ℕ → ReceiverCounters
count_packet c data_len = record c {
  rx_packets = u64 (c.rx_packets + 1);
  rx_bytes = u64 (c.rx_bytes + data_len);
}

-- `if (packet->data_seq > next_data_seq) …`
unfoldable pub count_gap : ReceiverCounters → ℕ → ℕ → ReceiverCounters
count_gap c data_seq next_data_seq =
    if ltb next_data_seq data_seq
    then record c {
      data_gap_events = u64 (c.data_gap_events + 1);
      data_packets_missing = u64 (c.data_packets_missing + (data_seq - next_data_seq));
    }
    else c

unfoldable pub count_accepted : ReceiverCounters → CanonicalDataPacketView → ReceiverCounters
count_accepted c packet = record c {
  data_packets_accepted = u64 (c.data_packets_accepted + 1);
  frames_published = u64 (c.frames_published + packet.record_count);
  frame_bytes_published = u64 (c.frame_bytes_published + sub64 packet.packet_size 22);
}

module _ (p : Profile) (order : ByteOrder) (mask : ℕ) where
  -- An admitted packet: stale, or written and counted.
  unfoldable pub process_data : ReceiverState → CanonicalDataPacketView → ReceiverState
  unfolding count_gap count_accepted
  process_data st packet =
      let next = if st.data_seq_established then st.next_data_seq else packet.data_seq in
      if ltb packet.data_seq next
      then record st {
        data_seq_established = true;
        next_data_seq = next;
        counters = record st.counters {
          stale_data_packets = u64 (st.counters.stale_data_packets + 1);
        };
      }
      else record {
        data_seq_established = true;
        next_data_seq = u64 (packet.data_seq + 1);
        counters = count_accepted (count_gap st.counters packet.data_seq next) packet;
        region = write p st.region mask packet;
      }

  -- The body of `for (std::size_t i = 0; i < received; ++i)`.
  unfoldable pub process_packet : ReceiverState → Mbuf → ReceiverState
  unfolding process_data count_packet
  process_packet st mbuf =
      let st' = record st { counters = count_packet st.counters mbuf.data_len } in
      elim (try_parse_canonical_data_packet order mbuf) [
        | none ↦ record st' {
          counters = record st'.counters {
            invalid_lldt_packets = u64 (st'.counters.invalid_lldt_packets + 1);
          };
        }
        | some packet ↦ process_data st' packet
      ]

  unfoldable pub process_packets : ReceiverState → List Mbuf → ReceiverState
  process_packets st [] = st
  process_packets st (mbuf ∷ mbufs) = process_packets (process_packet st mbuf) mbufs

  -- One round of `while (!stop_requested)`, with what `rte_eth_rx_burst` delivered.
  unfoldable pub receive_burst : ReceiverState → List Mbuf → ReceiverState
  unfolding process_packets
  receive_burst st mbufs =
      let st' = record st {
        counters = record st.counters { rx_bursts = u64 (st.counters.rx_bursts + 1) };
      } in
      if length mbufs == 0
      then record st' {
        counters = record st'.counters { empty_rx_bursts = u64 (st'.counters.empty_rx_bursts + 1) };
      }
      else process_packets st' mbufs

  -- The rounds until `stop_requested`.
  unfoldable pub run_receiver : ReceiverState → List (List Mbuf) → ReceiverState
  unfolding receive_burst
  run_receiver st [] = st
  run_receiver st (mbufs ∷ bursts) = run_receiver (receive_burst st mbufs) bursts
