-- ===== src/Sender/Audit.antt =====
-- The sender's accounts over whole passes, and over a run.
use low_latency_data_transfe.Base.{
  ℕ, ◌+◌, ◌≤◌, ◌≡◌, refl, ap, List, Bool, true, Option, none, some, arith, u64, drop, ◌==◌,
  if◌then◌else◌, if_cases, Bool-cases, Option-cases, inl, inr,
}
use low_latency_data_transfe.Message.{Profile}
use low_latency_data_transfe.Builder.{SourceFrameView, raw_data_packet_builder, finalize}
use low_latency_data_transfe.Reader.{SenderShmReader, SenderShmReaderStatus, try_read}
use low_latency_data_transfe.Reader
use low_latency_data_transfe.Reader.Counts.{Counts, try_read-Counts}
use low_latency_data_transfe.Reader.Admits.{try_read-Admitted}
use low_latency_data_transfe.Sender.{
  SenderState, Batch, Turn, Outcome, finished, failed, continued, packet, out_of_fuel, batch_fuel,
  outer_size, data_packet_canonical_capacity, fill_batch, emit, build_packet, send_frame,
  first_read, sender_pass, sender_turn,
}
use low_latency_data_transfe.Sender.Accounts.{
  carried, IsRead, BatchAccounts, fill_batch-BatchAccounts,
}

-- With `extra` frames in hand besides the one carried over, all modulo 2^64: sequence numbers are
-- used by the packets built, which are enqueued or unsent, and frames read are invalid or offered.
pub record IsAudited (extra : ℕ) (st : SenderState) : Type 0 where
  pub built : st.data_counters.data_packets_built ≡ st.next_data_seq
  pub consumed : st.data_counters.data_sequences_consumed ≡ st.next_data_seq
  pub transmitted :
      u64 (st.data_counters.tx_packets_enqueued + st.data_counters.tx_packets_unsent)
      ≡ st.next_data_seq
  pub offered :
      st.data_counters.frames_offered_to_packetization
      ≡ u64 (
          st.data_counters.frames_packetized
          + st.data_counters.mbuf_alloc_failures
          + carried st.carry_frame
          + extra)
  pub read : IsRead st.data_counters.frames_offered_to_packetization st.reader

-- A carried frame is at least a header long.
abbrev pub CarryFits : Option SourceFrameView → Type 0
CarryFits none = Unit {0}
CarryFits (some v) = (24 ≤ v.frame_size) × (v.frame_size ≤ 1450)

abbrev pub OutcomeAudited : Outcome → Type 0
OutcomeAudited (finished st) = IsAudited 0 st
OutcomeAudited (failed st) = IsAudited 1 st
OutcomeAudited (continued st) = IsAudited 0 st
OutcomeAudited (packet st v) = IsAudited 0 st
OutcomeAudited out_of_fuel = Unit {0}

polled :
    (st : SenderState) (r : SenderShmReader)
    → IsAudited 0 st
    → IsRead st.data_counters.frames_offered_to_packetization r
    → IsAudited 0 (record st { reader = r })
polled st r v reads = record {
  built = v.built;
  consumed = v.consumed;
  transmitted = v.transmitted;
  offered = v.offered;
  read = reads;
}

-- `finalize` hands over the count of the builder, and the packet ends the batch's accounts.
emit-IsAudited :
    (st : SenderState) (b : Batch) (sent : ℕ)
    → IsAudited 1 st
    → st.carry_frame ≡ none
    → BatchAccounts st.data_counters.frames_offered_to_packetization b
    → OutcomeAudited (emit st b sent)
unfolding emit finalize
emit-IsAudited st b sent v pending acc = record {
  built = omega (arith, v.built);
  consumed = omega (arith, v.consumed);
  transmitted = elim (Bool-cases (sent == 0)) [
    | inl none_sent ↦ rw none_sent (omega (arith, v.transmitted))
    | inr taken ↦ rw taken (omega (arith, v.transmitted))
  ];
  offered = omega (arith, acc.offered, acc.pos, v.offered, ap carried pending);
  read = acc.read;
}

module _ (p : Profile) (mask : ℕ) where
  build_packet-Audited :
      (batching : Bool) (st : SenderState) (t : Turn) (first : SourceFrameView) (memory : List ℕ)
      → IsAudited 1 st
      → st.carry_frame ≡ none
      → 24 ≤ first.frame_size
      → first.frame_size ≤ 1450
      → OutcomeAudited (build_packet p mask batching st t first memory)
  unfolding build_packet raw_data_packet_builder
  build_packet-Audited batching st t first memory v pending least most =
      elim (Bool-cases batching) [
        | inl on ↦ rw on (elim (Option-cases (fill_batch p mask batch_fuel t.polls 0 b)) [
          | inl out ↦ rw out tt
          | inr (b', e) ↦ rw e (
              emit-IsAudited st b' t.sent v pending (
                fill_batch-BatchAccounts st.data_counters.frames_offered_to_packetization
                  (omega (arith, v.offered)) p mask batch_fuel t.polls 0 b b' start (omega arith)
                  pending e))
        ])
        | inr off ↦ rw off (emit-IsAudited st b t.sent v pending start)
      ]
    where
      b : Batch
      b = record {
        reader = st.reader;
        builder =
            raw_data_packet_builder (drop outer_size memory) data_packet_canonical_capacity
              st.next_data_seq st.reader.buffer first;
        carry_frame = st.carry_frame;
        stopping = st.stopping;
        offered = st.data_counters.frames_offered_to_packetization;
      }

      start : BatchAccounts st.data_counters.frames_offered_to_packetization b
      start = record {
        pos = omega arith;
        offered = omega (arith, v.offered, ap carried pending);
        read = v.read;
      }

  send_frame-Audited :
      (batching : Bool) (st : SenderState) (t : Turn) (first : SourceFrameView)
      → IsAudited 1 st
      → st.carry_frame ≡ none
      → 24 ≤ first.frame_size
      → first.frame_size ≤ 1450
      → OutcomeAudited (send_frame p mask batching st t first)
  unfolding send_frame
  send_frame-Audited batching st t first v pending least most = elim (Bool-cases t.mbuf_allocated) [
    | inl got ↦ simp got (elim (Option-cases t.packet_memory) [
      | inl e ↦ simp e v
      | inr (m, e) ↦ simp e (build_packet-Audited batching st t first m v pending least most)
    ])
    | inr no_mbuf ↦ simp no_mbuf (record {
      built = v.built;
      consumed = v.consumed;
      transmitted = v.transmitted;
      offered = omega (arith, v.offered);
      read = v.read;
    })
  ]

  first_read-Audited :
      (batching : Bool) (st : SenderState) (r : SenderShmReader) (t : Turn)
      (status : SenderShmReaderStatus) (view : Option SourceFrameView)
      → IsAudited 0 st
      → st.carry_frame ≡ none
      → Counts st.reader status view r
      → ((v : SourceFrameView)
          → status ≡ Reader.SenderShmReaderStatus.ok
          → view ≡ some v
          → (24 ≤ v.frame_size) × (v.frame_size ≤ 1450))
      → OutcomeAudited (first_read p mask batching (record st { reader = r }) t status view)
  unfolding first_read
  first_read-Audited batching st r t Reader.SenderShmReaderStatus.ok (some frame) v pending counts
        fits =
      send_frame-Audited batching _ t frame
        (record {
          built = v.built;
          consumed = v.consumed;
          transmitted = v.transmitted;
          offered = omega (arith, v.offered);
          read = omega (arith, v.read, v.offered);
        })
        pending (fits frame refl refl).0 (fits frame refl refl).1
  first_read-Audited batching st r t Reader.SenderShmReaderStatus.ok none v pending counts fits =
      absurd counts
  first_read-Audited batching st r t Reader.SenderShmReaderStatus.empty view v pending counts fits =
      polled st r v (omega (arith, v.read))
  first_read-Audited batching st r t Reader.SenderShmReaderStatus.lapped view v pending counts
        fits =
      polled st r v (omega (arith, v.read))
  first_read-Audited batching st r t Reader.SenderShmReaderStatus.invalid view v pending counts
        fits =
      polled st r v (omega (arith, v.read))

  sender_pass-Audited :
      (batching : Bool) (st : SenderState) (t : Turn) (carry : Option SourceFrameView)
      → p.max_frame ≤ 1450
      → st.carry_frame ≡ carry
      → CarryFits carry
      → IsAudited 0 st
      → OutcomeAudited (sender_pass p mask batching st t carry)
  unfolding sender_pass
  sender_pass-Audited batching st t (some frame) room e fits v =
      send_frame-Audited batching _ t frame
        (record {
          built = v.built;
          consumed = v.consumed;
          transmitted = v.transmitted;
          offered = omega (arith, v.offered, ap carried e);
          read = v.read;
        })
        refl fits.0 fits.1
  sender_pass-Audited batching st t none room e fits v =
      if_cases OutcomeAudited st.stopping (finished st) _ (λ _. v)
        (λ _.
          let (status, view, reader) = try_read p mask st.reader t.first_poll in
          first_read-Audited batching st reader t status view v e
            (try_read-Counts p mask st.reader t.first_poll)
            λ w is_ok is_view.
              let a =
                try_read-Admitted p mask st.reader reader t.first_poll w
                  (λ i. (is_ok i, is_view i, reader)) in
              (a.view.least, omega (arith, a.view.most)))

  -- A pass keeps the accounts: packets built, sequence numbers used, packets enqueued or unsent, and
  -- frames read, offered, packetized, lost to a failed allocation or carried over.
  pub sender_turn-Audited :
      (batching : Bool) (st : SenderState) (t : Turn)
      → p.max_frame ≤ 1450
      → CarryFits st.carry_frame
      → IsAudited 0 st
      → OutcomeAudited (sender_turn p mask batching st t)
  unfolding sender_turn
  sender_turn-Audited batching st t room fits v =
      sender_pass-Audited batching
        (record st { stopping = if t.stop_requested then true else st.stopping }) t st.carry_frame
        room refl fits
        (record {
          built = v.built;
          consumed = v.consumed;
          transmitted = v.transmitted;
          offered = v.offered;
          read = v.read;
        })
