-- ===== src/Sender/Accounts.antt =====
-- The sender's accounts: every frame read is invalid or offered, every frame offered is in a packet,
-- dropped for want of an mbuf or carried over, and every packet has used up one sequence number.
use low_latency_data_transfe.Base.{
  ℕ, zero, suc, ◌+◌, ◌-◌, ◌*◌, ◌^◌, ◌≤◌, ◌<◌, ◌≡◌, refl, sym, ap, ◌∙◌, subst, List, Option, none,
  some, arith, u64, u16, Bool-cases, inl, inr, ◌⊎◌, lt-or-le,
}
use low_latency_data_transfe.Message.{Profile}
use low_latency_data_transfe.Builder.{SourceFrameView, RawDataPacketBuilder, try_append, finalize}
use low_latency_data_transfe.Builder
use low_latency_data_transfe.Reader.{SenderShmReader, SenderShmReaderStatus, try_read}
use low_latency_data_transfe.Reader
use low_latency_data_transfe.Reader.Admits.{try_read-Admitted}
use low_latency_data_transfe.Reader.Counts.{Counts, try_read-Counts}
use low_latency_data_transfe.Sender.{
  Batch, BatchStep, leave, again, Poll, offer, take_next, batch_step, fill_batch,
}

abbrev pub carried : Option SourceFrameView → ℕ
carried none = 0
carried (some v) = 1

-- The part of the accounts that a poll touches.
abbrev pub IsRead : ℕ → SenderShmReader → Type 0
IsRead offered r = r.counters.frames_read ≡ u64 (offered + r.counters.invalid_frames)

-- A batch that began when `before` frames had been offered, its first one included.
pub record BatchAccounts (before : ℕ) (b : Batch) : Type 0 where
  pub pos : 0 < b.builder.record_count
  pub offered : b.offered ≡ u64 (before + b.builder.record_count - 1 + carried b.carry_frame)
  pub read : IsRead b.offered b.reader

-- A packet has room for a number of frames that a `std::uint16_t` counts.
abbrev pub HasRoom : Batch → Type 0
HasRoom b = 24 * b.builder.record_count + b.builder.remaining_payload_capacity ≤ 1450

abbrev pub StepAccounts : ℕ → BatchStep → Type 0
StepAccounts before (leave b') = BatchAccounts before b'
StepAccounts before (again b') = BatchAccounts before b' × HasRoom b' × (b'.carry_frame ≡ none)

try_append-fields :
    (b : RawDataPacketBuilder) (buffer : List ℕ) (frame : SourceFrameView)
    → (try_append b buffer frame ≡ (Builder.RawDataPacketBuildStatus.output_too_small, b))
      ⊎ (((try_append b buffer frame).0 ≡ Builder.RawDataPacketBuildStatus.ok)
          × ((try_append b buffer frame).1.record_count ≡ u16 (b.record_count + 1))
          × ((try_append b buffer frame).1.remaining_payload_capacity + frame.frame_size
              ≡ b.remaining_payload_capacity))
unfolding try_append
try_append-fields b buffer frame = elim (lt-or-le b.remaining_payload_capacity frame.frame_size) [
  | inl over ↦ inl (ground arith)
  | inr fits ↦ inr (ground arith, ground arith, ground arith)
]

module _ (before : ℕ) (small : before < 2 ^ 64) where
  offer-StepAccounts :
      (b : Batch) (frame : SourceFrameView)
      → 24 ≤ frame.frame_size
      → 0 < b.builder.record_count
      → b.offered ≡ u64 (before + b.builder.record_count - 1)
      → IsRead (b.offered + 1) b.reader
      → HasRoom b
      → b.carry_frame ≡ none
      → StepAccounts before (offer b frame)
  unfolding offer
  offer-StepAccounts b frame size pos offered reads room pending =
      elim (Bool-cases frame.begins_after_source_gap) [
        | inl gap ↦ simp gap (record { pos = pos; offered = omega arith; read = omega arith })
        | inr no_gap ↦ simp no_gap (elim (try_append-fields b.builder b.reader.buffer frame) [
          | inl over ↦ simp over (record { pos = pos; offered = omega arith; read = omega arith })
          | inr (accepted, count, less) ↦ rw accepted (
            record {
              pos = omega arith;
              offered =
                  subst
                    (λ c.
                      u64 (b.offered + 1)
                      ≡ u64 (
                          before
                          + (try_append b.builder b.reader.buffer frame).1.record_count
                          - 1
                          + carried c))
                    (sym pending) (omega arith);
              read = omega arith;
            },
            omega arith,
            pending,
          )
        ])
      ]

  -- The reader after a poll, by the poll's answer.
  take_next-StepAccounts :
      (b : Batch) (status : SenderShmReaderStatus) (view : Option SourceFrameView)
      (r : SenderShmReader)
      → BatchAccounts before b
      → HasRoom b
      → b.carry_frame ≡ none
      → Counts b.reader status view r
      → ((v : SourceFrameView)
          → status ≡ Reader.SenderShmReaderStatus.ok
          → view ≡ some v
          → 24 ≤ v.frame_size)
      → StepAccounts before (take_next (record b { reader = r }) status view)
  unfolding take_next
  take_next-StepAccounts b Reader.SenderShmReaderStatus.ok (some frame) r v room pending counts
        size =
      offer-StepAccounts (record b { reader = r }) frame (size frame refl refl) v.pos
        (v.offered
          ∙ ap (λ c. u64 (before + b.builder.record_count - 1 + carried c)) pending
          ∙ omega arith)
        (omega (arith, v.read)) room pending
  take_next-StepAccounts b Reader.SenderShmReaderStatus.ok none r v room pending counts size =
      absurd counts
  take_next-StepAccounts b Reader.SenderShmReaderStatus.empty view r v room pending counts size =
      record { pos = v.pos; offered = v.offered; read = omega (arith, v.read) }
  take_next-StepAccounts b Reader.SenderShmReaderStatus.lapped view r v room pending counts size =
      record { pos = v.pos; offered = v.offered; read = omega (arith, v.read) }
  take_next-StepAccounts b Reader.SenderShmReaderStatus.invalid view r v room pending counts size =
      record { pos = v.pos; offered = v.offered; read = omega (arith, v.read) }

  module _ (p : Profile) (mask : ℕ) where
    batch_step-StepAccounts :
        (b : Batch) (poll : Poll)
        → BatchAccounts before b
        → HasRoom b
        → b.carry_frame ≡ none
        → StepAccounts before (batch_step p mask b poll)
    unfolding batch_step
    batch_step-StepAccounts b poll v room pending = elim (Bool-cases poll.stop_requested) [
      | inl halt ↦ simp halt (record { pos = v.pos; offered = v.offered; read = v.read })
      | inr on ↦ simp on (
          let (status, view, reader) = try_read p mask b.reader poll.snapshots in
          take_next-StepAccounts b status view reader v room pending
            (try_read-Counts p mask b.reader poll.snapshots)
            λ w is_ok is_view.
              (try_read-Admitted p mask b.reader reader poll.snapshots w
                (λ i. (is_ok i, is_view i, reader))).view.least)
    ]

    pub fill_batch-BatchAccounts :
        (fuel : ℕ) (polls : ℕ → Poll) (i : ℕ) (b b' : Batch)
        → BatchAccounts before b
        → HasRoom b
        → b.carry_frame ≡ none
        → fill_batch p mask fuel polls i b ≡ some b'
        → BatchAccounts before b'
    unfolding fill_batch
    fill_batch-BatchAccounts zero polls i b b' v room pending e = absurd (ground arith)
    fill_batch-BatchAccounts (suc fuel) polls i b b' v room pending e =
        go (batch_step p mask b (polls i)) (batch_step-StepAccounts b (polls i) v room pending) e
          λ c w more none_yet e'.
            fill_batch-BatchAccounts fuel polls (i + 1) c b' w more none_yet e'
      where
        go :
            (step : BatchStep)
            → StepAccounts before step
            → (elim step [ leave c ↦ some c | again c ↦ fill_batch p mask fuel polls (i + 1) c ])
              ≡ some b'
            → ((c : Batch)
                → BatchAccounts before c
                → HasRoom c
                → c.carry_frame ≡ none
                → fill_batch p mask fuel polls (i + 1) c ≡ some b'
                → BatchAccounts before b')
            → BatchAccounts before b'
        go (leave c) good e' rec = subst (BatchAccounts before) (cc) good
        go (again c) good e' rec = rec c good.0 good.1 good.2 e'
