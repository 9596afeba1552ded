-- ===== src/Statistics/Reported.antt =====
-- What the statistics of src/sender_main.cpp and src/receiver_main.cpp say.
use low_latency_data_transfe.Base.{
  ℕ, ◌<◌, ◌≡◌, refl, sym, ap, ◌∙◌, List, [], ◌∷◌, ◌++◌, append_assoc, true, false, Option, none,
  some, Bool-cases, inl, inr, ◌⊎◌, ◌==◌, length, ◌↔◌, arith,
}
use low_latency_data_transfe.Config.{Str}
use low_latency_data_transfe.Options.{codes}
use low_latency_data_transfe.Reader.{SenderInputCounters}
use low_latency_data_transfe.Sender.{SenderDataCounters}
use low_latency_data_transfe.Receiver.{ReceiverCounters}
use low_latency_data_transfe.Statistics.{
  Printed, DeviceStatistics, RteEthStats, print_device, print_stats, print_xstats, print_fields,
  warning, answers, xstats_rows, input_fields, data_fields, receiver_fields, sent_fields,
  received_fields, sender_statistics, receiver_statistics,
}
use low_latency_data_transfe.Statistics.Fields.{
  read_fields, are_labels, named, are_names, read_fields-print_fields, read_fields-xstats_rows,
}

-- The documented behaviour of the two calls that fill an array: a result that is the number of its
-- entries means that all of them are written. A name has neither tab nor line break.
pub record IsDevice (d : DeviceStatistics) : Type 0 where
  pub names_filled :
      (n : ℕ) → d.xstats_count ≡ some n → d.names_result ≡ some n → length d.names ≡ n
  pub xstats_filled :
      (n : ℕ) → d.xstats_count ≡ some n → d.xstats_result ≡ some n → length d.xstats ≡ n
  pub plain : are_names d.names ≡ true

-- The calls for the extended statistics all succeed, of which there are some.
abbrev pub Answered : DeviceStatistics → Type 0
Answered d =
    (n : ℕ) × (0 < n)
    × (d.xstats_count ≡ some n)
    × (d.names_result ≡ some n)
    × (d.xstats_result ≡ some n)

-- What is printed says the counters, the device's statistics and its extended statistics; nothing
-- is on `stderr` exactly if all of them are there.
pub record Reports (fields : RteEthStats → List (Str × ℕ)) (d : DeviceStatistics)
    (counters : List (Str × ℕ)) (p : Printed) : Type 0 where
  pub stats : List (Str × ℕ)
  pub xstats : List (Str × ℕ)
  pub out : read_fields p.out ≡ counters ++ (stats ++ xstats)
  pub stats_said :
      ((s : RteEthStats) × (d.stats ≡ some s) × (stats ≡ fields s))
      ⊎ ((d.stats ≡ none) × (stats ≡ []))
  pub xstats_said :
      (Answered d × (xstats ≡ named d.names d.xstats)) ⊎ ((¬ Answered d) × (xstats ≡ []))
  pub err : (p.err ≡ []) ↔ ((¬ (d.stats ≡ none)) × Answered d)

warned : (text : Str) → ¬ ((warning text).err ≡ [])
warned text e = omega (arith, ap length e)

answers-yes : (res : Option ℕ) (n : ℕ) → answers res n ≡ true → res ≡ some n
answers-yes none n h = absurd (ground arith)
answers-yes (some m) n h = ap some (ground arith)

answers-no : (res : Option ℕ) (n : ℕ) → answers res n ≡ false → ¬ (res ≡ some n)
answers-no none n h e = ground arith
answers-no (some m) n h e = ground arith

-- The device's statistics, in front of a further text.
record StatsPrinted (fields : RteEthStats → List (Str × ℕ)) (o : Option RteEthStats) (p : Printed)
    : Type 0 where
  stats : List (Str × ℕ)
  out : (rest : Str) → read_fields (p.out ++ rest) ≡ stats ++ read_fields rest
  said : ((s : RteEthStats) × (o ≡ some s) × (stats ≡ fields s)) ⊎ ((o ≡ none) × (stats ≡ []))
  err : (p.err ≡ []) ↔ (¬ (o ≡ none))

print_stats_lem :
    (fields : RteEthStats → List (Str × ℕ))
    → ((s : RteEthStats) → are_labels (fields s) ≡ true)
    → (o : Option RteEthStats) → StatsPrinted fields o (print_stats fields o)
unfolding print_stats
print_stats_lem fields labels none = record {
  stats = [];
  out = λ rest. refl;
  said = inr (refl, refl);
  err = ((λ e. absurd (warned (codes "rte_eth_stats") e)), (λ h. absurd (h refl)));
}
print_stats_lem fields labels (some s) = record {
  stats = fields s;
  out = λ rest. read_fields-print_fields (codes "RteStats:") (fields s) rest refl (labels s);
  said = inl (s, refl, refl);
  err = ((λ e h. grind arith), (λ h. refl));
}

-- The extended statistics.
record XstatsPrinted (d : DeviceStatistics) (p : Printed) : Type 0 where
  xstats : List (Str × ℕ)
  out : read_fields p.out ≡ xstats
  said : (Answered d × (xstats ≡ named d.names d.xstats)) ⊎ ((¬ Answered d) × (xstats ≡ []))
  err : (p.err ≡ []) ↔ Answered d

xstats_refused : (d : DeviceStatistics) (text : Str) → ¬ Answered d → XstatsPrinted d (warning text)
xstats_refused d text unanswered = record {
  xstats = [];
  out = refl;
  said = inr (unanswered, refl);
  err = ((λ e. absurd (warned text e)), (λ a. absurd (unanswered a)));
}

same_count :
    (d : DeviceStatistics) (n : ℕ)
    → d.xstats_count ≡ some n
    → Answered d
    → (0 < n) × (d.names_result ≡ some n) × (d.xstats_result ≡ some n)
same_count d n h (m, pos, count, names, xstats) =
    let same : m ≡ n = grind arith in (omega arith, names ∙ ap some same, xstats ∙ ap some same)

print_xstats_lem :
    (d : DeviceStatistics)
    → IsDevice d
    → (o : Option ℕ) → d.xstats_count ≡ o
    → XstatsPrinted d (print_xstats o d)
unfolding print_xstats
print_xstats_lem d v none h =
    xstats_refused d (codes "xstats_count")
      λ a. let (m, pos, count, names, xstats) = a in grind arith
print_xstats_lem d v (some n) h = elim (Bool-cases (n == 0)) [
  | inl zero ↦
      simp zero
        (xstats_refused d (codes "xstats_count") λ a. ground (arith, zero, (same_count d n h a).0))
  | inr pos ↦ elim (Bool-cases (answers d.names_result n)) [
    | inr unnamed ↦
        simp (pos, unnamed)
          (xstats_refused d (codes "xstats_names")
            λ a. answers-no d.names_result n unnamed ((same_count d n h a).1))
    | inl names ↦ elim (Bool-cases (answers d.xstats_result n)) [
      | inr unread ↦
          simp (pos, names, unread)
            (xstats_refused d (codes "xstats values")
              λ a. answers-no d.xstats_result n unread ((same_count d n h a).2))
      | inl read ↦
          let given = answers-yes d.names_result n names in
          let filled = answers-yes d.xstats_result n read in
          let le = v.names_filled n h given in
          let all : Answered d = (n, ground (arith, pos), h, given, filled) in
          simp (pos, names, read)
            (record {
              xstats = named d.names d.xstats;
              out =
                  ap
                    (λ m. read_fields (codes "RteXstats:" ++ 10 ∷ xstats_rows d.names d.xstats 0 m))
                    (sym le)
                  ∙ read_fields-xstats_rows (codes "RteXstats:") d.names d.xstats refl v.plain
                      (le ∙ sym (v.xstats_filled n h filled));
              said = inl (all, refl);
              err = ((λ e. all), (λ a. refl));
            })
    ]
  ]
]

append-is-nil : (xs ys : Str) → xs ++ ys ≡ [] → (xs ≡ []) × (ys ≡ [])
append-is-nil [] ys h = (refl, h)
append-is-nil (x ∷ xs) ys h = absurd (omega (arith, ap length h))

print_device_lem :
    (fields : RteEthStats → List (Str × ℕ))
    → ((s : RteEthStats) → are_labels (fields s) ≡ true)
    → (d : DeviceStatistics) → IsDevice d
    → (text : Str) (counters : List (Str × ℕ))
    → ((rest : Str) → read_fields (text ++ rest) ≡ counters ++ read_fields rest)
    → Reports fields d counters (print_device text fields d)
unfolding print_device
print_device_lem fields labels d v text counters reads =
    let first = print_stats_lem fields labels d.stats in
    let second = print_xstats_lem d v d.xstats_count refl in
    record {
      stats = first.stats;
      xstats = second.xstats;
      out =
          reads _
          ∙ ap (λ fs. counters ++ fs) (first.out _ ∙ ap (λ fs. first.stats ++ fs) second.out);
      stats_said = first.said;
      xstats_said = second.said;
      err = (
        (λ e.
            let (e₁, e₂) = append-is-nil (print_stats fields d.stats).err _ e in
            (first.err.0 e₁, second.err.0 e₂)),
        (λ h. rw (first.err.1 (h.0), second.err.1 (h.1)) refl),
      );
    }

sender_statistics-Reports :
    (input : SenderInputCounters) (counters : SenderDataCounters) (d : DeviceStatistics)
    → IsDevice d
    → Reports sent_fields d
        (input_fields input ++ data_fields counters)
        (sender_statistics input counters d)
unfolding sender_statistics sent_fields input_fields data_fields
sender_statistics-Reports input counters d v =
    print_device_lem sent_fields (λ s. refl) d v
      (print_fields (codes "SenderInputCounters:") (input_fields input)
        ++ print_fields (codes "SenderDataCounters:") (data_fields counters))
      (input_fields input ++ data_fields counters)
      λ rest.
        ap read_fields
          (append_assoc (print_fields (codes "SenderInputCounters:") (input_fields input)) _ rest)
        ∙ read_fields-print_fields (codes "SenderInputCounters:") (input_fields input) _ refl refl
        ∙ ap (λ fs. input_fields input ++ fs)
            (read_fields-print_fields (codes "SenderDataCounters:") (data_fields counters) rest refl
              refl)

receiver_statistics-Reports :
    (counters : ReceiverCounters) (d : DeviceStatistics)
    → IsDevice d
    → Reports received_fields d (receiver_fields counters) (receiver_statistics counters d)
unfolding receiver_statistics received_fields receiver_fields
receiver_statistics-Reports counters d v =
    print_device_lem received_fields (λ s. refl) d v
      (print_fields (codes "ReceiverCounters:") (receiver_fields counters))
      (receiver_fields counters)
      λ rest.
        read_fields-print_fields (codes "ReceiverCounters:") (receiver_fields counters) rest refl
          refl

-- The rows that are expected: a name and a counter each.
abbrev pub named_input : SenderInputCounters → List (Str × ℕ)
named_input c =
    named
      (codes "Frames read"
        ∷ codes "Bytes read"
        ∷ codes "Empty polls"
        ∷ codes "Lapped events"
        ∷ codes "Lapped frames skipped"
        ∷ codes "Invalid frames"
        ∷ codes "Source gap events"
        ∷ codes "Source frames missing"
        ∷ [])
      (c.frames_read ∷ c.bytes_read ∷ c.empty_polls ∷ c.lapped_events ∷ c.lapped_frames_skipped
        ∷ c.invalid_frames ∷ c.source_gap_events ∷ c.source_frames_missing ∷ [])

abbrev pub named_data : SenderDataCounters → List (Str × ℕ)
named_data c =
    named
      (codes "Frames offered to packetization"
        ∷ codes "Mbuf alloc failures"
        ∷ codes "Frames packetized"
        ∷ codes "Data packets built"
        ∷ codes "Data payload bytes"
        ∷ codes "Data sequences consumed"
        ∷ codes "Tx packets enqueued"
        ∷ codes "Tx packets unsent"
        ∷ [])
      (c.frames_offered_to_packetization ∷ c.mbuf_alloc_failures ∷ c.frames_packetized
        ∷ c.data_packets_built ∷ c.data_payload_bytes ∷ c.data_sequences_consumed
        ∷ c.tx_packets_enqueued ∷ c.tx_packets_unsent ∷ [])

abbrev pub named_received : ReceiverCounters → List (Str × ℕ)
named_received c =
    named
      (codes "Total RxBursts"
        ∷ codes "Empty RxBursts"
        ∷ codes "Total received packets"
        ∷ codes "Total received bytes"
        ∷ codes "Total invalid lldt packets"
        ∷ codes "Total stale packets"
        ∷ codes "Total gaps"
        ∷ codes "Total missing packets"
        ∷ codes "Total accepted packets"
        ∷ codes "Total frames published"
        ∷ codes "Total bytes published"
        ∷ [])
      (c.rx_bursts ∷ c.empty_rx_bursts ∷ c.rx_packets ∷ c.rx_bytes ∷ c.invalid_lldt_packets
        ∷ c.stale_data_packets ∷ c.data_gap_events ∷ c.data_packets_missing
        ∷ c.data_packets_accepted ∷ c.frames_published ∷ c.frame_bytes_published ∷ [])

abbrev pub named_sent_stats : RteEthStats → List (Str × ℕ)
named_sent_stats c =
    named
      (codes "Successfully transmitted packets"
        ∷ codes "Successfully transmitted bytes"
        ∷ codes "Failed transmitted packets"
        ∷ [])
      (c.opackets ∷ c.obytes ∷ c.oerrors ∷ [])

abbrev pub named_received_stats : RteEthStats → List (Str × ℕ)
named_received_stats c =
    named
      (codes "Successfully received packets"
        ∷ codes "Successfully received bytes"
        ∷ codes "Total packets missed by hardware"
        ∷ codes "Total erroneous received packets"
        ∷ codes "Total Rx mbuf allocation failures"
        ∷ [])
      (c.ipackets ∷ c.ibytes ∷ c.imissed ∷ c.ierrors ∷ c.rx_nombuf ∷ [])

-- What the sender and the receiver print at their end, for a device whose calls fill the arrays that
-- they report as filled with names that have neither tab nor line break, says to a reader of its
-- lines, in this order: the counters with their names, the device's statistics if these can be had,
-- and the name and the value of each extended statistic if all three calls for these agree on a
-- number that is not 0; `stderr` stays empty exactly if both kinds of statistics are there.
pub statistics-Reports :
    (input : SenderInputCounters) (counters : SenderDataCounters) (received : ReceiverCounters)
    → (d : DeviceStatistics) → IsDevice d
    → Reports named_sent_stats d
        (named_input input ++ named_data counters)
        (sender_statistics input counters d)
      × Reports named_received_stats d (named_received received) (receiver_statistics received d)
unfolding input_fields data_fields receiver_fields sent_fields received_fields
statistics-Reports input counters received d v =
    (sender_statistics-Reports input counters d v, receiver_statistics-Reports received d v)
