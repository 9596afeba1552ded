-- ===== src/Reader/Counts.antt =====
-- The counters of `try_read`: every frame read is handed out or invalid.
use low_latency_data_transfe.Base.{
  ℕ, ◌+◌, ◌-◌, ◌≡◌, refl, Option, none, some, u64, ltb, not, if_cases,
}
use low_latency_data_transfe.Message.{Profile}
use low_latency_data_transfe.Builder.{SourceFrameView}
use low_latency_data_transfe.Ring.{Snapshots, FrameStatus, read}
use low_latency_data_transfe.Reader.{
  SenderShmReader, SenderShmReaderStatus, Result, count_read, reject, count_source_gap, classify,
  admit, handle, try_read,
}
use low_latency_data_transfe.Reader

-- What a poll adds to the frames read and to the invalid ones, by its answer.
abbrev pub Counts :
    SenderShmReader → SenderShmReaderStatus → Option SourceFrameView → SenderShmReader → Type 0
Counts s Reader.SenderShmReaderStatus.ok (some v) s' =
    (s'.counters.frames_read ≡ u64 (s.counters.frames_read + 1))
    × (s'.counters.invalid_frames ≡ s.counters.invalid_frames)
Counts s Reader.SenderShmReaderStatus.ok none s' = ⊥
Counts s Reader.SenderShmReaderStatus.empty view s' =
    (s'.counters.frames_read ≡ s.counters.frames_read)
    × (s'.counters.invalid_frames ≡ s.counters.invalid_frames)
Counts s Reader.SenderShmReaderStatus.lapped view s' =
    (s'.counters.frames_read ≡ s.counters.frames_read)
    × (s'.counters.invalid_frames ≡ s.counters.invalid_frames)
Counts s Reader.SenderShmReaderStatus.invalid view s' =
    (s'.counters.frames_read ≡ u64 (s.counters.frames_read + 1))
    × (s'.counters.invalid_frames ≡ u64 (s.counters.invalid_frames + 1))

abbrev Counted : SenderShmReader → Result → Type 0
Counted s (status, view, s') = Counts s status view s'

classify-Counted :
    (s t : SenderShmReader) (read_len seq_id : ℕ)
    → t.counters.frames_read ≡ u64 (s.counters.frames_read + 1)
    → t.counters.invalid_frames ≡ s.counters.invalid_frames
    → Counted s (classify t read_len seq_id)
unfolding classify count_source_gap
classify-Counted s t read_len seq_id reads invalids =
    if_cases (Counted s) (not t.has_prev_valid) _ _ (λ _. (reads, invalids))
      λ _.
        if_cases (Counted s) (ltb t.prev_valid seq_id) _ _
          (λ _.
            if_cases (Counted s) (ltb 1 (seq_id - t.prev_valid)) _ _ (λ _. (reads, invalids))
              (λ _. (reads, invalids)))
          (λ _. (reads, invalids))

module _ (p : Profile) where
  admit-Counted : (s : SenderShmReader) (read_len : ℕ) → Counted s (admit p s read_len)
  unfolding admit reject count_read
  admit-Counted s read_len =
      if_cases (Counted s) (ltb read_len 24) (reject (count_read s read_len)) _ (λ _. (refl, refl))
        λ _.
          if_cases (Counted s) _ (reject (count_read s read_len)) _ (λ _. (refl, refl))
            (λ _. classify-Counted s (count_read s read_len) read_len (p.seq_id s.buffer) refl refl)

  handle-Counted : (s : SenderShmReader) (status : FrameStatus) → Counted s (handle p s status)
  unfolding handle
  handle-Counted s (FrameStatus.ok n) = admit-Counted s n
  handle-Counted s FrameStatus.empty = (refl, refl)
  handle-Counted s (FrameStatus.lapped r) = (refl, refl)

  pub try_read-Counts :
      (mask : ℕ) (s : SenderShmReader) (snaps : Snapshots)
      → let (status, view, s') = try_read p mask s snaps in Counts s status view s'
  unfolding try_read
  try_read-Counts mask s snaps =
      let (status, out) = read snaps mask s.read_index s.buffer in
      handle-Counted (record s { buffer = out }) status
