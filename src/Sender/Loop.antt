-- ===== src/Sender/Loop.antt =====
-- The inner loop: it ends, and the packet holds the complete frames it took, in order.
use low_latency_data_transfe.Base.{
  ℕ, zero, suc, ◌+◌, ◌*◌, ◌≤◌, ◌<◌, ◌≡◌, refl, sym, ◌∙◌, List, [], ◌∷◌, ◌++◌, Option, none, some,
  arith, length, length-append, take, Bool-cases, inl, inr, subst,
}
use low_latency_data_transfe.Message.{Profile, IsProfile, sizeof_header}
use low_latency_data_transfe.Builder.{SourceFrameView}
use low_latency_data_transfe.Builder.Image.{Builds, try_append-Builds, try_append-cases}
use low_latency_data_transfe.Reader.{SenderShmReader, SenderShmReaderStatus, try_read}
use low_latency_data_transfe.Reader
use low_latency_data_transfe.Reader.Admits.{
  IsView, IsView-IsFrame, try_read-Admitted, length-try_read,
}
use low_latency_data_transfe.Receiver.Writer.{IsFrame, AllFrames}
use low_latency_data_transfe.Sender.{
  Batch, BatchStep, leave, again, Poll, offer, take_next, batch_step, fill_batch,
}

-- A frame carried over is complete in the reader's buffer.
abbrev pub IsCarry : Profile → List ℕ → Option SourceFrameView → Type 0
IsCarry p buffer none = Unit {0}
IsCarry p buffer (some v) = IsView p buffer v

-- The batch under construction: at least one frame, each complete.
pub record IsBatch (p : Profile) (capacity data_seq : ℕ) (b : Batch) : Type 0 where
  pub frames : List (List ℕ)
  pub some_frame : 0 < length frames
  pub builds : Builds capacity data_seq frames b.builder
  pub complete : AllFrames p frames
  pub buffer : length b.reader.buffer ≡ p.max_frame
  pub carry : IsCarry p b.reader.buffer b.carry_frame

AllFrames-append :
    (p : Profile) (fs : List (List ℕ)) (f : List ℕ)
    → AllFrames p fs
    → IsFrame p f
    → AllFrames p (fs ++ f ∷ [])
AllFrames-append p [] f all h = (h, tt)
AllFrames-append p (g ∷ fs) f all h = (all.0, AllFrames-append p fs f all.1 h)

-- After one round the batch is still good; a further round has 24 bytes less to fill.
abbrev pub StepGood : Profile → ℕ → ℕ → ℕ → BatchStep → Type 0
StepGood p capacity data_seq room (leave b') = IsBatch p capacity data_seq b'
StepGood p capacity data_seq room (again b') =
    IsBatch p capacity data_seq b'
    × (b'.carry_frame ≡ none)
    × (b'.builder.remaining_payload_capacity + sizeof_header ≤ room)

module _ (p : Profile) (law : IsProfile p) (capacity data_seq : ℕ) where
  offer-StepGood :
      (b : Batch) (frame : SourceFrameView)
      → IsBatch p capacity data_seq b
      → b.carry_frame ≡ none
      → IsView p b.reader.buffer frame
      → StepGood p capacity data_seq b.builder.remaining_payload_capacity (offer b frame)
  unfolding offer
  offer-StepGood b frame v pending is_view = elim (Bool-cases frame.begins_after_source_gap) [
    | inl gap ↦ simp gap (record {
      frames = v.frames;
      some_frame = v.some_frame;
      builds = v.builds;
      complete = v.complete;
      buffer = v.buffer;
      carry = is_view;
    })
    | inr no_gap ↦ simp no_gap (elim (try_append-cases b.builder b.reader.buffer frame) [
      | inl over ↦ simp over (record {
        frames = v.frames;
        some_frame = v.some_frame;
        builds = v.builds;
        complete = v.complete;
        buffer = v.buffer;
        carry = is_view;
      })
      | inr (fits, accepted, less) ↦ rw accepted (
        record {
          frames = v.frames ++ take frame.frame_size b.reader.buffer ∷ [];
          some_frame =
              omega (arith, length-append v.frames (take frame.frame_size b.reader.buffer ∷ []));
          builds =
              try_append-Builds capacity data_seq b.reader.buffer frame v.frames b.builder v.builds
                fits (omega (arith, v.buffer, is_view.most));
          complete =
              AllFrames-append p v.frames _ v.complete
                (IsView-IsFrame p b.reader.buffer frame law v.buffer is_view);
          buffer = v.buffer;
          carry = v.carry;
        },
        pending,
        omega (arith, is_view.least),
      )
    ])
  ]

  -- A poll may overwrite the buffer only while no frame is carried over.
  polled :
      (b : Batch) (reader : SenderShmReader)
      → IsBatch p capacity data_seq b
      → b.carry_frame ≡ none
      → length reader.buffer ≡ length b.reader.buffer
      → IsBatch p capacity data_seq (record b { reader = reader })
  polled b reader v pending len = record {
    frames = v.frames;
    some_frame = v.some_frame;
    builds = v.builds;
    complete = v.complete;
    buffer = len ∙ v.buffer;
    carry = subst (IsCarry p reader.buffer) (sym pending) tt;
  }

  take_next-StepGood :
      (b : Batch) (status : SenderShmReaderStatus) (view : Option SourceFrameView)
      → IsBatch p capacity data_seq b
      → b.carry_frame ≡ none
      → ((v : SourceFrameView)
          → status ≡ Reader.SenderShmReaderStatus.ok
          → view ≡ some v
          → IsView p b.reader.buffer v)
      → StepGood p capacity data_seq b.builder.remaining_payload_capacity (take_next b status view)
  unfolding take_next
  take_next-StepGood b Reader.SenderShmReaderStatus.ok (some frame) v pending h =
      offer-StepGood b frame v pending (h frame refl refl)
  take_next-StepGood b Reader.SenderShmReaderStatus.ok none v pending h = v
  take_next-StepGood b Reader.SenderShmReaderStatus.empty view v pending h = v
  take_next-StepGood b Reader.SenderShmReaderStatus.lapped view v pending h = v
  take_next-StepGood b Reader.SenderShmReaderStatus.invalid view v pending h = v

  batch_step-StepGood :
      (mask : ℕ) (b : Batch) (poll : Poll)
      → IsBatch p capacity data_seq b
      → b.carry_frame ≡ none
      → StepGood p capacity data_seq b.builder.remaining_payload_capacity (batch_step p mask b poll)
  unfolding batch_step
  batch_step-StepGood mask b poll v pending = elim (Bool-cases poll.stop_requested) [
    | inl halt ↦ simp halt (record {
      frames = v.frames;
      some_frame = v.some_frame;
      builds = v.builds;
      complete = v.complete;
      buffer = v.buffer;
      carry = v.carry;
    })
    | inr on ↦ simp on (
        let (status, view, reader) = try_read p mask b.reader poll.snapshots in
        take_next-StepGood (record b { reader = reader }) status view
          (polled b reader v pending (length-try_read p mask b.reader poll.snapshots)) pending
          λ w is_ok is_view.
            (try_read-Admitted p mask b.reader reader poll.snapshots w
              (λ i. (is_ok i, is_view i, reader))).view)
  ]

  -- From a good batch with no frame carried over, the batching loop ends when its fuel covers the
  -- free payload space at 24 bytes a frame, and the builder then holds complete frames in order,
  -- the frame carried over being complete in the reader's buffer.
  pub fill_batch-IsBatch :
      (mask fuel : ℕ) (polls : ℕ → Poll) (i : ℕ) (b : Batch)
      → IsBatch p capacity data_seq b
      → b.carry_frame ≡ none
      → b.builder.remaining_payload_capacity < sizeof_header * fuel
      → (b' : Batch) × (fill_batch p mask fuel polls i b ≡ some b') × IsBatch p capacity data_seq b'
  unfolding fill_batch
  fill_batch-IsBatch mask zero polls i b v pending room = absurd (omega arith)
  fill_batch-IsBatch mask (suc fuel) polls i b v pending room =
      go (batch_step p mask b (polls i)) (batch_step-StepGood mask b (polls i) v pending)
        λ b' w none_yet less. fill_batch-IsBatch mask fuel polls (i + 1) b' w none_yet less
    where
      go :
          (step : BatchStep)
          → StepGood p capacity data_seq b.builder.remaining_payload_capacity step
          → ((b' : Batch)
              → IsBatch p capacity data_seq b'
              → b'.carry_frame ≡ none
              → b'.builder.remaining_payload_capacity < sizeof_header * fuel
              → (last : Batch) × (fill_batch p mask fuel polls (i + 1) b' ≡ some last)
                × IsBatch p capacity data_seq last)
          → (last : Batch) × ((elim step [
            | leave b' ↦ some b'
            | again b' ↦ fill_batch p mask fuel polls (i + 1) b'
          ])
              ≡ some last)
            × IsBatch p capacity data_seq last
      go (leave b') good rec = (b', refl, good)
      go (again b') (good, none_yet, less) rec = rec b' good none_yet (omega arith)
