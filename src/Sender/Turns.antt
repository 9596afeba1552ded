-- ===== src/Sender/Turns.antt =====
-- One pass of the sender's loop, on every branch.
use low_latency_data_transfe.Base.{
  ℕ, ◌+◌, ◌*◌, ◌^◌, ◌≤◌, ◌<◌, ◌≡◌, refl, sym, ap, ◌∙◌, List, [], ◌∷◌, ◌++◌, Bool, true, Option,
  none, some, arith, length, length-append, concat, take, drop, length-drop, u64, if◌then◌else◌,
  Bool-cases, if_cases, Option-cases, subst, inl, inr,
}
use low_latency_data_transfe.Message.{Profile, IsProfile, sizeof_header}
use low_latency_data_transfe.Builder.{
  SourceFrameView, CanonicalDataPacketView, data_header_size, raw_data_packet_builder,
}
use low_latency_data_transfe.Builder.Header.{header_bytes}
use low_latency_data_transfe.Builder.Image.{
  raw_data_packet_builder-Builds, finalize-image, finalize-size, finalize-fields,
}
use low_latency_data_transfe.Reader.{SenderShmReader, SenderShmReaderStatus, try_read}
use low_latency_data_transfe.Reader
use low_latency_data_transfe.Reader.Admits.{
  IsView, IsView-IsFrame, try_read-Admitted, length-try_read,
}
use low_latency_data_transfe.Receiver.Writer.{AllFrames}
use low_latency_data_transfe.Sender.{
  SenderState, Batch, Turn, Outcome, finished, failed, continued, packet, out_of_fuel, batch_fuel,
  fill_batch, emit, build_packet, send_frame, first_read, sender_pass, sender_turn, outer_size,
  data_packet_canonical_capacity,
}
use low_latency_data_transfe.Sender.Loop.{IsCarry, IsBatch, fill_batch-IsBatch}

-- Between passes: a frame carried over is still complete in the reader's buffer.
pub record IsSender (p : Profile) (st : SenderState) : Type 0 where
  pub buffer : length st.reader.buffer ≡ p.max_frame
  pub carry : IsCarry p st.reader.buffer st.carry_frame

-- The canonical image of a Data packet: header, then complete frames.
pub record IsDataPacket (p : Profile) (data_seq : ℕ) (v : CanonicalDataPacketView) : Type 0 where
  pub frames : List (List ℕ)
  pub some_frame : 0 < length frames
  pub complete : AllFrames p frames
  pub seq : v.data_seq ≡ data_seq
  pub count : v.record_count ≡ length frames
  pub few : length frames < 2 ^ 16
  pub size : v.packet_size ≡ data_header_size + length (concat frames)
  pub bound : v.packet_size ≤ data_packet_canonical_capacity
  pub image : take v.packet_size v.bytes ≡ header_bytes data_seq (length frames) ++ concat frames

abbrev pub TurnGood : Profile → ℕ → Outcome → Type 0
TurnGood p next (finished st') =
    IsSender p st' × (st'.stopping ≡ true) × (st'.carry_frame ≡ none) × (st'.next_data_seq ≡ next)
TurnGood p next (failed st') = IsSender p st' × (st'.next_data_seq ≡ next)
TurnGood p next (continued st') = IsSender p st' × (st'.next_data_seq ≡ next)
TurnGood p next (packet st' v) =
    IsSender p st' × IsDataPacket p next v × (st'.next_data_seq ≡ u64 (next + 1))
TurnGood p next out_of_fuel = ⊥

frames-few :
    (p : Profile) (fs : List (List ℕ))
    → AllFrames p fs
    → sizeof_header * length fs ≤ length (concat fs)
frames-few p [] all = omega arith
frames-few p (f ∷ fs) all =
    omega (arith, all.0.header, frames-few p fs all.1, length-append f (concat fs))

module _ (p : Profile) (law : IsProfile p) (mask : ℕ) where
  emit-TurnGood :
      (st : SenderState) (b : Batch) (sent : ℕ)
      → IsBatch p data_packet_canonical_capacity st.next_data_seq b
      → TurnGood p st.next_data_seq (emit st b sent)
  unfolding emit
  emit-TurnGood st b sent v =
      let (size, bound) =
        finalize-size data_packet_canonical_capacity st.next_data_seq v.frames b.builder v.builds in
      let (seq, count) =
        finalize-fields data_packet_canonical_capacity st.next_data_seq v.frames b.builder
          v.builds in
      (
        record { buffer = v.buffer; carry = v.carry },
        record {
          frames = v.frames;
          some_frame = v.some_frame;
          complete = v.complete;
          seq = seq;
          count = omega (arith, count, few);
          few = few;
          size = size;
          bound = bound;
          image =
              finalize-image data_packet_canonical_capacity st.next_data_seq v.frames b.builder
                v.builds
              ∙ ap (λ t. header_bytes st.next_data_seq t ++ concat v.frames) (omega (arith, few));
        },
        refl,
      )
    where
      few : length v.frames < 2 ^ 16
      few = omega (arith, frames-few p v.frames v.complete, v.builds.fits, v.builds.pos)

  build_packet-TurnGood :
      (batching : Bool) (st : SenderState) (t : Turn) (first : SourceFrameView) (memory : List ℕ)
      → length memory ≡ outer_size + data_packet_canonical_capacity
      → length st.reader.buffer ≡ p.max_frame
      → st.carry_frame ≡ none
      → IsView p st.reader.buffer first
      → TurnGood p st.next_data_seq (build_packet p mask batching st t first memory)
  unfolding build_packet
  build_packet-TurnGood batching st t first memory len buffer none_yet view =
      elim (Bool-cases batching) [
        | inl on ↦ rw on (
            with_batch (
              fill_batch-IsBatch p law data_packet_canonical_capacity st.next_data_seq mask
                batch_fuel t.polls 0 b start none_yet
                (omega (arith, start.builds.fits, start.builds.pos))))
        | inr off ↦ rw off (emit-TurnGood st b t.sent start)
      ]
    where
      b : Batch
      b = record {
        reader = st.reader;
        builder =
            raw_data_packet_builder (drop outer_size memory) data_packet_canonical_capacity
              st.next_data_seq st.reader.buffer first;
        carry_frame = st.carry_frame;
        stopping = st.stopping;
        offered = st.data_counters.frames_offered_to_packetization;
      }

      start : IsBatch p data_packet_canonical_capacity st.next_data_seq b
      start = record {
        frames = take first.frame_size st.reader.buffer ∷ [];
        some_frame = omega arith;
        builds =
            raw_data_packet_builder-Builds data_packet_canonical_capacity st.next_data_seq
              st.reader.buffer first (drop outer_size memory)
              (omega (arith, length-drop outer_size memory)) (omega arith)
              (omega (arith, law.room, view.most)) (omega (arith, buffer, view.most));
        complete = (IsView-IsFrame p st.reader.buffer first law buffer view, tt);
        buffer = buffer;
        carry = subst (IsCarry p st.reader.buffer) (sym none_yet) tt;
      }

      with_batch :
          (b' : Batch) × (fill_batch p mask batch_fuel t.polls 0 b ≡ some b')
            × IsBatch p data_packet_canonical_capacity st.next_data_seq b'
          → TurnGood p st.next_data_seq (elim (fill_batch p mask batch_fuel t.polls 0 b) [
            | none ↦ out_of_fuel
            | some b' ↦ emit st b' t.sent
          ])
      with_batch (b', e, good) = rw e (emit-TurnGood st b' t.sent good)

  send_frame-TurnGood :
      (batching : Bool) (st : SenderState) (t : Turn) (first : SourceFrameView)
      → ((m : List ℕ)
          → t.packet_memory ≡ some m
          → length m ≡ outer_size + data_packet_canonical_capacity)
      → length st.reader.buffer ≡ p.max_frame
      → st.carry_frame ≡ none
      → IsView p st.reader.buffer first
      → TurnGood p st.next_data_seq (send_frame p mask batching st t first)
  unfolding send_frame
  send_frame-TurnGood batching st t first memory buffer none_yet view =
      elim (Bool-cases t.mbuf_allocated) [
        | inl got ↦ simp got (elim (Option-cases t.packet_memory) [
          | inl e ↦ simp e (kept, refl)
          | inr (m, e) ↦
              simp e (build_packet-TurnGood batching st t first m (memory m e) buffer none_yet view)
        ])
        | inr no_mbuf ↦ simp no_mbuf (record { buffer = buffer; carry = kept.carry }, refl)
      ]
    where
      kept : IsSender p st
      kept = record {
        buffer = buffer;
        carry = subst (IsCarry p st.reader.buffer) (sym none_yet) tt;
      }

  first_read-TurnGood :
      (batching : Bool) (st : SenderState) (t : Turn) (status : SenderShmReaderStatus)
      (view : Option SourceFrameView)
      → ((m : List ℕ)
          → t.packet_memory ≡ some m
          → length m ≡ outer_size + data_packet_canonical_capacity)
      → length st.reader.buffer ≡ p.max_frame
      → st.carry_frame ≡ none
      → ((v : SourceFrameView)
          → status ≡ Reader.SenderShmReaderStatus.ok
          → view ≡ some v
          → IsView p st.reader.buffer v)
      → TurnGood p st.next_data_seq (first_read p mask batching st t status view)
  unfolding first_read
  first_read-TurnGood batching st t Reader.SenderShmReaderStatus.ok (some frame) memory buffer
        pending h =
      send_frame-TurnGood batching _ t frame memory buffer pending (h frame refl refl)
  first_read-TurnGood batching st t Reader.SenderShmReaderStatus.ok none memory buffer pending h = (
    record { buffer = buffer; carry = subst (IsCarry p st.reader.buffer) (sym pending) tt },
    refl,
  )
  first_read-TurnGood batching st t Reader.SenderShmReaderStatus.empty view memory buffer pending
        h =
      (
        record { buffer = buffer; carry = subst (IsCarry p st.reader.buffer) (sym pending) tt },
        refl,
      )
  first_read-TurnGood batching st t Reader.SenderShmReaderStatus.lapped view memory buffer pending
        h =
      (
        record { buffer = buffer; carry = subst (IsCarry p st.reader.buffer) (sym pending) tt },
        refl,
      )
  first_read-TurnGood batching st t Reader.SenderShmReaderStatus.invalid view memory buffer pending
        h =
      (
        record { buffer = buffer; carry = subst (IsCarry p st.reader.buffer) (sym pending) tt },
        refl,
      )

  sender_pass-TurnGood :
      (batching : Bool) (st : SenderState) (t : Turn) (carry : Option SourceFrameView)
      → st.carry_frame ≡ carry
      → IsCarry p st.reader.buffer carry
      → length st.reader.buffer ≡ p.max_frame
      → ((m : List ℕ)
          → t.packet_memory ≡ some m
          → length m ≡ outer_size + data_packet_canonical_capacity)
      → TurnGood p st.next_data_seq (sender_pass p mask batching st t carry)
  unfolding sender_pass
  sender_pass-TurnGood batching st t (some frame) e v buffer memory =
      send_frame-TurnGood batching _ t frame memory buffer refl v
  sender_pass-TurnGood batching st t none e v buffer memory =
      if_cases (TurnGood p st.next_data_seq) st.stopping _ _
        (λ halt. (
          record { buffer = buffer; carry = subst (IsCarry p st.reader.buffer) (sym e) tt },
          halt,
          e,
          refl,
        ))
        (λ _.
          let (status, view, reader) = try_read p mask st.reader t.first_poll in
          first_read-TurnGood batching (record st { reader = reader }) t status view memory
            (length-try_read p mask st.reader t.first_poll ∙ buffer) e
            λ w is_ok is_view.
              (try_read-Admitted p mask st.reader reader t.first_poll w
                (λ i. (is_ok i, is_view i, reader))).view)

  -- From a well-formed state, and with 1514 bytes wherever memory is reserved, a pass of the
  -- sender ends in a well-formed state; what it emits is a canonical packet of at most 1472 bytes
  -- with the next sequence number, the count of its frames and complete frames only; no other pass
  -- uses up a number; the loop is left by the stop flag only with no frame carried over.
  pub sender_turn-TurnGood :
      (batching : Bool) (st : SenderState) (t : Turn)
      → IsSender p st
      → ((m : List ℕ)
          → t.packet_memory ≡ some m
          → length m ≡ outer_size + data_packet_canonical_capacity)
      → TurnGood p st.next_data_seq (sender_turn p mask batching st t)
  unfolding sender_turn
  sender_turn-TurnGood batching st t v memory =
      sender_pass-TurnGood batching
        (record st { stopping = if t.stop_requested then true else st.stopping }) t st.carry_frame
        refl v.carry v.buffer memory
