-- ===== src/Tests/Statistics.antt =====
-- What is printed by a sender that has read two frames, and by a receiver, of a device with one
-- extended statistic.
use low_latency_data_transfe.Base.{◌≡◌, refl, [], ◌∷◌, ◌++◌, some, arith}
use low_latency_data_transfe.Options.{codes}
use low_latency_data_transfe.Reader.{SenderInputCounters, zero_input_counters}
use low_latency_data_transfe.Sender.{SenderDataCounters}
use low_latency_data_transfe.Receiver.{ReceiverCounters, zero_counters}
use low_latency_data_transfe.Statistics.{
  DeviceStatistics, print_xstats, sender_statistics, receiver_statistics,
}
use low_latency_data_transfe.Statistics.Reported.{
  IsDevice, Reports, statistics-Reports, named_sent_stats, named_received_stats, named_input,
  named_data, named_received,
}

abbrev input : SenderInputCounters
input = record zero_input_counters { frames_read = 2; bytes_read = 96 }

abbrev sent : SenderDataCounters
sent = record {
  frames_offered_to_packetization = 2;
  mbuf_alloc_failures = 0;
  frames_packetized = 2;
  data_packets_built = 1;
  data_payload_bytes = 100;
  data_sequences_consumed = 1;
  tx_packets_enqueued = 1;
  tx_packets_unsent = 0;
}

abbrev received : ReceiverCounters
received = record zero_counters { rx_bursts = 3; empty_rx_bursts = 2; rx_packets = 1 }

abbrev device : DeviceStatistics
device = record {
  stats = some (record {
    ipackets = 1;
    opackets = 1;
    ibytes = 164;
    obytes = 164;
    imissed = 0;
    ierrors = 0;
    oerrors = 0;
    rx_nombuf = 0;
  });
  xstats_count = some 1;
  names_result = some 1;
  names = codes "rx_good" ∷ [];
  xstats_result = some 1;
  xstats = 7 ∷ [];
}

device-IsDevice : IsDevice device
device-IsDevice = record {
  names_filled = λ n h h'. grind arith;
  xstats_filled = λ n h h'. grind arith;
  plain = refl;
}

statistics-Reports_example :
    Reports named_sent_stats device
      (named_input input ++ named_data sent)
      (sender_statistics input sent device)
    × Reports named_received_stats device
        (named_received received)
        (receiver_statistics received device)
statistics-Reports_example = statistics-Reports input sent received device device-IsDevice

-- The lines for the extended statistics.
print_xstats_example : (print_xstats (some 1) device).out ≡ codes "RteXstats:\nrx_good:\t7\n"
unfolding print_xstats
print_xstats_example = refl
