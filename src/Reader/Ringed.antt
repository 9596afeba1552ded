-- ===== src/Reader/Ringed.antt =====
-- `try_read` on a source ring while no producer is at work: which frame it delivers, and where it
-- goes on when it was lapped.
use low_latency_data_transfe.Base.{
  ℕ, ◌+◌, ◌-◌, ◌^◌, ◌≤◌, ◌<◌, ◌≡◌, refl, ap, ◌∙◌, List, ◌++◌, true, false, none, some, arith, take,
  length, get_elem?, if◌then◌else◌, u64, u32, ltb, write_at, take-append, write_at_front, drop,
  lt→ltb,
}
use low_latency_data_transfe.Message.{Profile, IsProfile, sizeof_header}
use low_latency_data_transfe.Builder.{SourceFrameView}
use low_latency_data_transfe.Ring
use low_latency_data_transfe.Ring.{Region, Snapshots, still, read}
use low_latency_data_transfe.Ring.Window.{IsRing}
use low_latency_data_transfe.Ring.Read.{read-frame, read-lapped, read-empty}
use low_latency_data_transfe.Reader.{
  SenderShmReader, Result, ok, empty, lapped, count_read, classify, admit, handle, try_read,
  count_source_gap,
}
use low_latency_data_transfe.Receiver.Writer.{IsFrame}

-- A complete frame is delivered: the status, a view of it, and the buffer behind the view.
pub record Delivers (p : Profile) (s : SenderShmReader) (f : List ℕ) (res : Result) : Type 0 where
  pub status : res.0 ≡ ok
  pub view : SourceFrameView
  pub given : res.1 ≡ some view
  pub size : view.frame_size ≡ length f
  pub seq : view.source_seq_id ≡ p.seq_id f
  pub bytes : take view.frame_size res.2.buffer ≡ f
  pub index : res.2.read_index ≡ s.read_index + 1

classified : SenderShmReader → ℕ → ℕ → SourceFrameView
classified s read_len seq_id = record {
  frame_size = read_len;
  source_seq_id = seq_id;
  begins_after_source_gap =
      if s.has_prev_valid
      then (if ltb s.prev_valid seq_id then ltb 1 (seq_id - s.prev_valid) else true)
      else false;
}

classify_lem :
    (s : SenderShmReader) (read_len seq_id : ℕ)
    → ((classify s read_len seq_id).0 ≡ ok)
      × ((classify s read_len seq_id).1 ≡ some (classified s read_len seq_id))
      × ((classify s read_len seq_id).2.buffer ≡ s.buffer)
      × ((classify s read_len seq_id).2.read_index ≡ s.read_index)
unfolding classify count_source_gap classified
classify_lem s read_len seq_id = (ground arith, ground arith, ground arith, ground arith)

admit-classify :
    (p : Profile) (s : SenderShmReader) (n : ℕ)
    → sizeof_header ≤ n
    → n ≤ p.max_frame
    → u32 (p.frame_size s.buffer) ≡ n
    → admit p s n ≡ classify (count_read s n) n (p.seq_id s.buffer)
unfolding admit count_read
admit-classify p s n least most size = ground arith

admit-Delivers :
    (p : Profile) (s t : SenderShmReader) (f : List ℕ)
    → sizeof_header ≤ length f
    → length f ≤ p.max_frame
    → u32 (p.frame_size t.buffer) ≡ length f
    → p.seq_id t.buffer ≡ p.seq_id f
    → take (length f) t.buffer ≡ f
    → t.read_index ≡ s.read_index
    → s.read_index + 1 < 2 ^ 64
    → Delivers p s f (admit p t (length f))
unfolding count_read classified
admit-Delivers p s t f least most size seq bytes index wide =
    let (is_ok, is_view, kept, moved) =
      classify_lem (count_read t (length f)) (length f) (p.seq_id t.buffer) in
    rw (admit-classify p t (length f) least most size) record {
      status = is_ok;
      view = classified (count_read t (length f)) (length f) (p.seq_id t.buffer);
      given = is_view;
      size = refl;
      seq = seq;
      bytes = ap (take (length f)) kept ∙ bytes;
      index = omega arith;
    }

module _ (p : Profile) (law : IsProfile p) (mask : ℕ) (s : SenderShmReader) where
  -- A read that gets a complete frame.
  pub read-Delivers :
      (snaps : Snapshots) (f : List ℕ)
      → read snaps mask s.read_index s.buffer
        ≡ (Ring.FrameStatus.ok (length f), write_at s.buffer 0 f)
      → IsFrame p f
      → length s.buffer ≡ p.max_frame
      → s.read_index + 1 < 2 ^ 64
      → Delivers p s f (try_read p mask s snaps)
  unfolding try_read handle
  read-Delivers snaps f e whole room wide = rw e (
      admit-Delivers p s (record s { buffer = write_at s.buffer 0 f }) f whole.header whole.fits
        (ap (λ t. u32 (p.frame_size t)) laid
          ∙ ap u32 (law.frame_size-append f behind whole.header)
          ∙ whole.size)
        (ap p.seq_id laid ∙ law.seq_id-append f behind whole.header)
        (ap (take (length f)) laid ∙ take-append f behind (length f) refl) refl wide)
    where
      behind : List ℕ
      behind = drop (length f) s.buffer

      laid : write_at s.buffer 0 f ≡ f ++ behind
      laid = write_at_front s.buffer f (omega (arith, whole.fits))

  -- A read that finds nothing.
  pub read-empty_poll :
      (snaps : Snapshots)
      → read snaps mask s.read_index s.buffer ≡ (Ring.FrameStatus.empty, s.buffer)
      → try_read p mask s snaps ≡ (
        empty,
        none,
        record s {
          counters = record s.counters { empty_polls = u64 (s.counters.empty_polls + 1) };
        },
      )
  unfolding try_read handle
  read-empty_poll snaps e = rw e refl

module _ (p : Profile) (law : IsProfile p) (k : ℕ) (history : List (List ℕ)) (r : Region)
    (s : SenderShmReader) where
  -- With no producer at work, a complete frame that the source ring still holds at the reader's
  -- index is delivered byte for byte, with its size and number, and the index moves behind it.
  pub try_read-Delivers :
      (f : List ℕ)
      → IsRing p.max_frame k history r
      → length history < 2 ^ 64
      → s.read_index < length history
      → length history ≤ s.read_index + 2 ^ k
      → get_elem? history s.read_index ≡ some f
      → IsFrame p f
      → length s.buffer ≡ p.max_frame
      → Delivers p s f (try_read p (2 ^ k - 1) s (still r))
  try_read-Delivers f ring small lt win e whole room =
      read-Delivers p law (2 ^ k - 1) s (still r) f
        (read-frame p.max_frame k history r s.buffer s.read_index f ring small lt win e) whole room
        (omega arith)

  -- With no producer at work, a reader that was overtaken goes on at the oldest frame still held,
  -- counts exactly the overwritten frames as skipped, and keeps its buffer.
  pub try_read-lapped :
      IsRing p.max_frame k history r
      → length history < 2 ^ 64
      → s.read_index + 2 ^ k < length history
      → let (status, view, s') = try_read p (2 ^ k - 1) s (still r) in
        (status ≡ lapped)
        × (view ≡ none)
        × (s'.read_index + 2 ^ k ≡ length history)
        × (s'.counters.lapped_frames_skipped
            ≡ u64 (s.counters.lapped_frames_skipped + (s'.read_index - s.read_index)))
        × (s'.counters.lapped_events ≡ u64 (s.counters.lapped_events + 1))
        × (s'.buffer ≡ s.buffer)
  unfolding try_read handle
  try_read-lapped ring small lt =
      rw (read-lapped p.max_frame k history r s.buffer s.read_index ring small lt) (
        refl,
        refl,
        omega arith,
        rw (lt→ltb s.read_index (length history - 2 ^ k) (omega arith)),
        refl,
        refl,
      )

  -- At the producer's edge there is nothing to read, and only the poll is counted.
  pub try_read-empty :
      IsRing p.max_frame k history r
      → length history + 1 < 2 ^ 64
      → s.read_index ≡ length history
      → try_read p (2 ^ k - 1) s (still r) ≡ (
        empty,
        none,
        record s {
          counters = record s.counters { empty_polls = u64 (s.counters.empty_polls + 1) };
        },
      )
  try_read-empty ring small at_edge = read-empty_poll p law (2 ^ k - 1) s (still r) (
      read-empty p.max_frame k history r s.buffer s.read_index ring (omega arith) (omega arith)
        (omega arith))
