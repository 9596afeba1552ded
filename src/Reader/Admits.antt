-- ===== src/Reader/Admits.antt =====
-- What `try_read` hands out: complete frames, with their gaps classified and counted.
use low_latency_data_transfe.Base.{
  ℕ, ◌+◌, ◌-◌, ◌^◌, ◌≤◌, ◌<◌, ◌≡◌, refl, sym, ap, ◌∙◌, List, true, some, arith, take, length, ◌≢◌,
  ◌↔◌, u64, u32, ltb, if◌then◌else◌, length-take, take-append-drop, drop,
}
use low_latency_data_transfe.Message.{Profile, IsProfile, sizeof_header}
use low_latency_data_transfe.Builder.{SourceFrameView}
use low_latency_data_transfe.Ring.{Snapshots, FrameStatus, read}
use low_latency_data_transfe.Ring.Read.{length-read}
use low_latency_data_transfe.Reader.{
  SenderShmReader, ok, count_read, reject, classify, admit, handle, try_read, count_source_gap,
}
use low_latency_data_transfe.Receiver.Writer.{IsFrame}

-- A view of a complete frame at the front of the buffer.
pub record IsView (p : Profile) (buffer : List ℕ) (v : SourceFrameView) : Type 0 where
  pub least : sizeof_header ≤ v.frame_size
  pub most : v.frame_size ≤ p.max_frame
  pub size : u32 (p.frame_size buffer) ≡ v.frame_size
  pub seq : v.source_seq_id ≡ p.seq_id buffer

-- How the frame with sequence number `seq` continues the run of valid frames before it.
pub record Continues (before after : SenderShmReader) (v : SourceFrameView) : Type 0 where
  -- A gap begins exactly where the number is not the successor of the largest valid one before.
  pub flagged :
      (v.begins_after_source_gap ≡ true)
      ↔ ((before.has_prev_valid ≡ true) × (v.source_seq_id ≢ before.prev_valid + 1))
  -- `prev_valid` is the largest valid number since the first.
  pub has_prev : after.has_prev_valid ≡ true
  pub prev : after.prev_valid ≡ (
      if before.has_prev_valid
      then (if ltb before.prev_valid v.source_seq_id then v.source_seq_id else before.prev_valid)
      else v.source_seq_id)
  -- The frames between the two numbers are counted as missing.
  pub missing :
      before.counters.source_frames_missing < 2 ^ 64
      → after.counters.source_frames_missing
        ≡ u64 (
            before.counters.source_frames_missing
            + (if before.has_prev_valid then v.source_seq_id - before.prev_valid - 1 else 0))

classify-Continues :
    (s after : SenderShmReader) (read_len seq_id : ℕ) (v : SourceFrameView)
    → classify s read_len seq_id ≡ (ok, some v, after)
    → Continues s after v
unfolding classify count_source_gap
classify-Continues s after read_len seq_id v e = record {
  flagged = (λ h. ground arith, λ h. ground arith);
  has_prev = ground arith;
  prev = ground arith;
  missing = λ h. ground arith;
}

-- Behind a pointer with a valid view stands a complete frame.
pub IsView-IsFrame :
    (p : Profile) (buffer : List ℕ) (v : SourceFrameView)
    → IsProfile p
    → length buffer ≡ p.max_frame
    → IsView p buffer v
    → IsFrame p (take v.frame_size buffer)
IsView-IsFrame p buffer v law len h = record {
  header = omega (arith, size, h.least);
  size = ap u32 (sym front) ∙ h.size ∙ sym size;
  fits = omega (arith, size, h.most);
}
  where
    size : length (take v.frame_size buffer) ≡ v.frame_size
    size = length-take v.frame_size buffer (omega (arith, h.most))

    front : p.frame_size buffer ≡ p.frame_size (take v.frame_size buffer)
    front =
        ap p.frame_size (sym (take-append-drop v.frame_size buffer))
        ∙ law.frame_size-append (take v.frame_size buffer) (drop v.frame_size buffer)
            (omega (arith, size, h.least))

-- What an accepted frame says of the states around it.
pub record Admitted (p : Profile) (before after : SenderShmReader) (v : SourceFrameView)
    : Type 0 where
  pub view : IsView p after.buffer v
  pub continues : Continues before after v

classify-view :
    (s after : SenderShmReader) (read_len seq_id : ℕ) (v : SourceFrameView)
    → classify s read_len seq_id ≡ (ok, some v, after)
    → (v.frame_size ≡ read_len) × (v.source_seq_id ≡ seq_id) × (after.buffer ≡ s.buffer)
unfolding classify count_source_gap
classify-view s after read_len seq_id v e = ground arith

module _ (p : Profile) where
  admit-classify :
      (s after : SenderShmReader) (read_len : ℕ) (v : SourceFrameView)
      → admit p s read_len ≡ (ok, some v, after)
      → (sizeof_header ≤ read_len)
        × (read_len ≤ p.max_frame)
        × (u32 (p.frame_size s.buffer) ≡ read_len)
        × (classify (count_read s read_len) read_len (p.seq_id s.buffer) ≡ (ok, some v, after))
  unfolding admit count_read
  admit-classify s after read_len v e = ground arith

  admit-Admitted :
      (s after : SenderShmReader) (read_len : ℕ) (v : SourceFrameView)
      → admit p s read_len ≡ (ok, some v, after)
      → Admitted p s after v
  unfolding count_read
  admit-Admitted s after read_len v e =
      let (least, most, size, c) = admit-classify s after read_len v e in
      let (is_len, is_seq, kept) = classify-view _ after read_len _ v c in
      let k = classify-Continues (count_read s read_len) after read_len _ v c in
      record {
        view = record {
          least = omega arith;
          most = omega arith;
          size = ap (λ t. u32 (p.frame_size t)) kept ∙ size ∙ sym is_len;
          seq = is_seq ∙ ap p.seq_id (sym kept);
        };
        continues = record {
          flagged = k.flagged;
          has_prev = k.has_prev;
          prev = k.prev;
          missing = k.missing;
        };
      }

  handle-Admitted :
      (s after : SenderShmReader) (status : FrameStatus) (v : SourceFrameView)
      → handle p s status ≡ (ok, some v, after)
      → Admitted p s after v
  unfolding handle
  handle-Admitted s after (FrameStatus.ok n) v e = admit-Admitted s after n v e
  handle-Admitted s after FrameStatus.empty v e = cc
  handle-Admitted s after (FrameStatus.lapped r) v e = cc

  -- A frame that try_read hands out is complete in the reader's buffer, and the reader keeps the
  -- largest number of a valid frame so far: the frame is flagged as beginning after a gap exactly
  -- when there was a valid frame and its number is not the successor of the largest, so that behind
  -- the numbers 10 and 5 the number 6 is flagged and 11 is not; and the numbers between the largest
  -- and a larger one are counted as missing, modulo 2^64 and if the count before was below that.
  pub try_read-Admitted :
      (mask : ℕ) (s after : SenderShmReader) (snaps : Snapshots) (v : SourceFrameView)
      → try_read p mask s snaps ≡ (ok, some v, after)
      → Admitted p s after v
  unfolding try_read
  try_read-Admitted mask s after snaps v e =
      let (status, out) = read snaps mask s.read_index s.buffer in
      let h = handle-Admitted (record s { buffer = out }) after status v e in
      record {
        view = h.view;
        continues = record {
          flagged = h.continues.flagged;
          has_prev = h.continues.has_prev;
          prev = h.continues.prev;
          missing = h.continues.missing;
        };
      }

  handle-buffer :
      (s : SenderShmReader) (status : FrameStatus) → (handle p s status).2.buffer ≡ s.buffer
  unfolding handle admit reject count_read classify count_source_gap
  handle-buffer s (FrameStatus.ok n) = ground arith
  handle-buffer s FrameStatus.empty = refl
  handle-buffer s (FrameStatus.lapped r) = refl

  -- The buffer keeps its size.
  pub length-try_read :
      (mask : ℕ) (s : SenderShmReader) (snaps : Snapshots)
      → length (try_read p mask s snaps).2.buffer ≡ length s.buffer
  unfolding try_read
  length-try_read mask s snaps =
      let (status, out) = read snaps mask s.read_index s.buffer in
      ap length (handle-buffer (record s { buffer = out }) status)
      ∙ length-read snaps mask s.read_index s.buffer
