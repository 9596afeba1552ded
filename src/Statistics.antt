-- ===== src/Statistics.antt =====
-- What src/sender_main.cpp and src/receiver_main.cpp print when their loops have ended, on `stdout`
-- and on `stderr`. The device's answers are an argument.
pub mod Fields
pub mod Reported
use low_latency_data_transfe.Base.{
  ℕ, zero, suc, ◌+◌, List, [], ◌∷◌, ◌++◌, Bool, false, not, Option, none, some, ◌==◌, if◌then◌else◌,
  get_or,
}
use low_latency_data_transfe.Config.{Str}
use low_latency_data_transfe.Options.{codes}
use low_latency_data_transfe.Output.{decimal_text}
use low_latency_data_transfe.Reader.{SenderInputCounters}
use low_latency_data_transfe.Sender.{SenderDataCounters}
use low_latency_data_transfe.Receiver.{ReceiverCounters}

pub record Printed : Type 0 where
  pub out : Str
  pub err : Str

-- The format `<label>\t%lu\n`.
unfoldable pub row : Str → ℕ → Str
unfolding decimal_text
row label n = label ++ 9 ∷ (decimal_text n ++ 10 ∷ [])

unfoldable pub rows : List (Str × ℕ) → Str
unfolding row
rows [] = []
rows (f ∷ fs) = row (f.0) (f.1) ++ rows fs

unfoldable pub input_fields : SenderInputCounters → List (Str × ℕ)
input_fields c =
    (codes "Frames read:", c.frames_read)
    ∷ (codes "Bytes read:", c.bytes_read)
    ∷ (codes "Empty polls:", c.empty_polls)
    ∷ (codes "Lapped events:", c.lapped_events)
    ∷ (codes "Lapped frames skipped:", c.lapped_frames_skipped)
    ∷ (codes "Invalid frames:", c.invalid_frames)
    ∷ (codes "Source gap events:", c.source_gap_events)
    ∷ (codes "Source frames missing:", c.source_frames_missing)
    ∷ []

unfoldable pub data_fields : SenderDataCounters → List (Str × ℕ)
data_fields c =
    (codes "Frames offered to packetization:", c.frames_offered_to_packetization)
    ∷ (codes "Mbuf alloc failures:", c.mbuf_alloc_failures)
    ∷ (codes "Frames packetized:", c.frames_packetized)
    ∷ (codes "Data packets built:", c.data_packets_built)
    ∷ (codes "Data payload bytes:", c.data_payload_bytes)
    ∷ (codes "Data sequences consumed:", c.data_sequences_consumed)
    ∷ (codes "Tx packets enqueued:", c.tx_packets_enqueued)
    ∷ (codes "Tx packets unsent:", c.tx_packets_unsent)
    ∷ []

unfoldable pub receiver_fields : ReceiverCounters → List (Str × ℕ)
receiver_fields c =
    (codes "Total RxBursts:", c.rx_bursts)
    ∷ (codes "Empty RxBursts:", c.empty_rx_bursts)
    ∷ (codes "Total received packets:", c.rx_packets)
    ∷ (codes "Total received bytes:", c.rx_bytes)
    ∷ (codes "Total invalid lldt packets:", c.invalid_lldt_packets)
    ∷ (codes "Total stale packets:", c.stale_data_packets)
    ∷ (codes "Total gaps:", c.data_gap_events)
    ∷ (codes "Total missing packets:", c.data_packets_missing)
    ∷ (codes "Total accepted packets:", c.data_packets_accepted)
    ∷ (codes "Total frames published:", c.frames_published)
    ∷ (codes "Total bytes published:", c.frame_bytes_published)
    ∷ []

-- `rte_eth_stats`
pub record RteEthStats : Type 0 where
  pub ipackets : ℕ
  pub opackets : ℕ
  pub ibytes : ℕ
  pub obytes : ℕ
  pub imissed : ℕ
  pub ierrors : ℕ
  pub oerrors : ℕ
  pub rx_nombuf : ℕ

unfoldable pub sent_fields : RteEthStats → List (Str × ℕ)
sent_fields c =
    (codes "Successfully transmitted packets:", c.opackets)
    ∷ (codes "Successfully transmitted bytes:", c.obytes)
    ∷ (codes "Failed transmitted packets:", c.oerrors)
    ∷ []

unfoldable pub received_fields : RteEthStats → List (Str × ℕ)
received_fields c =
    (codes "Successfully received packets:", c.ipackets)
    ∷ (codes "Successfully received bytes:", c.ibytes)
    ∷ (codes "Total packets missed by hardware:", c.imissed)
    ∷ (codes "Total erroneous received packets:", c.ierrors)
    ∷ (codes "Total Rx mbuf allocation failures:", c.rx_nombuf)
    ∷ []

-- A title, the rows below it, and an empty line: each `print` function but the last.
unfoldable pub print_fields : Str → List (Str × ℕ) → Str
unfolding rows
print_fields title fs = title ++ 10 ∷ (rows fs ++ 10 ∷ [])

-- The loop of `printRteXstats`, from position `i` on, over the arrays that the device has filled; an
-- entry that it did not write is the initial one.
unfoldable pub xstats_rows : List Str → List ℕ → ℕ → ℕ → Str
unfolding row
xstats_rows names xstats i zero = []
xstats_rows names xstats i (suc n) =
    row (get_or names i [] ++ codes ":") (get_or xstats i 0) ++ xstats_rows names xstats (i + 1) n

-- What the device answers: the statistics, unless it fails; the number of the extended ones, and the
-- results of the two calls that fill the arrays, `none` if negative, with what these calls write.
pub record DeviceStatistics : Type 0 where
  pub stats : Option RteEthStats
  pub xstats_count : Option ℕ
  pub names_result : Option ℕ
  pub names : List Str
  pub xstats_result : Option ℕ
  pub xstats : List ℕ

-- `!(res < 0 || res != xstats_count)`
abbrev pub answers : Option ℕ → ℕ → Bool
answers none count = false
answers (some res) count = res == count

abbrev pub warning : Str → Printed
warning text = record { out = []; err = codes "[WARNING]: Could not retrieve " ++ text ++ 10 ∷ [] }

unfoldable pub print_stats : (RteEthStats → List (Str × ℕ)) → Option RteEthStats → Printed
unfolding print_fields
print_stats fields none = warning (codes "rte_eth_stats")
print_stats fields (some stats) = record {
  out = print_fields (codes "RteStats:") (fields stats);
  err = [];
}

-- With the number of extended statistics.
unfoldable pub print_xstats : Option ℕ → DeviceStatistics → Printed
unfolding xstats_rows
print_xstats none d = warning (codes "xstats_count")
print_xstats (some count) d =
    if count == 0
    then warning (codes "xstats_count")
    else if not (answers d.names_result count)
    then warning (codes "xstats_names")
    else if not (answers d.xstats_result count)
    then warning (codes "xstats values")
    else record { out = codes "RteXstats:" ++ 10 ∷ xstats_rows d.names d.xstats 0 count; err = [] }

-- Both, behind the counters.
unfoldable pub print_device : Str → (RteEthStats → List (Str × ℕ)) → DeviceStatistics → Printed
unfolding print_stats print_xstats
print_device counters fields d = record {
  out = counters ++ ((print_stats fields d.stats).out ++ (print_xstats d.xstats_count d).out);
  err = (print_stats fields d.stats).err ++ (print_xstats d.xstats_count d).err;
}

-- The end of `run_sender`.
unfoldable pub sender_statistics :
    SenderInputCounters → SenderDataCounters → DeviceStatistics → Printed
unfolding print_device
sender_statistics input counters d =
    print_device
      (print_fields (codes "SenderInputCounters:") (input_fields input)
        ++ print_fields (codes "SenderDataCounters:") (data_fields counters))
      sent_fields d

-- The end of `run_receiver`.
unfoldable pub receiver_statistics : ReceiverCounters → DeviceStatistics → Printed
unfolding print_device
receiver_statistics counters d =
    print_device (print_fields (codes "ReceiverCounters:") (receiver_fields counters))
      received_fields d
