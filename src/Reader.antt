-- ===== src/Reader.antt =====
-- src/sender_shm_reader.cpp: the sender's only view of the source ring. It copies a frame into
-- `buffer_`, admits it if it is complete, and classifies gaps in the source sequence.
pub mod Counts
pub mod Admits
pub mod Ringed
pub mod Watched
use low_latency_data_transfe.Base.{
  ℕ, ◌+◌, ◌-◌, List, Bool, true, false, ◌||◌, not, Option, none, some, ltb, ◌==◌, if◌then◌else◌,
  u64, u32,
}
use low_latency_data_transfe.Message.{Profile, sizeof_header}
use low_latency_data_transfe.Builder.{SourceFrameView}
use low_latency_data_transfe.Ring.{Region, FrameStatus, Snapshots, read, live_edge}
use low_latency_data_transfe.Ring

pub record SenderInputCounters : Type 0 where
  pub frames_read : ℕ
  pub bytes_read : ℕ
  pub empty_polls : ℕ
  pub lapped_events : ℕ
  pub lapped_frames_skipped : ℕ
  pub invalid_frames : ℕ
  pub source_gap_events : ℕ
  pub source_frames_missing : ℕ

pub data SenderShmReaderStatus : Type 0 where
  ok empty lapped invalid : SenderShmReaderStatus

-- `SenderShmReader`; every view it hands out points to `buffer`.
pub record SenderShmReader : Type 0 where
  pub read_index : ℕ
  pub prev_valid : ℕ
  pub has_prev_valid : Bool
  pub buffer : List ℕ
  pub counters : SenderInputCounters

abbrev pub zero_input_counters : SenderInputCounters
zero_input_counters = record {
  frames_read = 0;
  bytes_read = 0;
  empty_polls = 0;
  lapped_events = 0;
  lapped_frames_skipped = 0;
  invalid_frames = 0;
  source_gap_events = 0;
  source_frames_missing = 0;
}

-- The constructor, on a region that is attached: reading starts at the producer's edge.
unfoldable pub sender_shm_reader : Region → List ℕ → SenderShmReader
sender_shm_reader region buffer = record {
  read_index = live_edge region;
  prev_valid = 0;
  has_prev_valid = false;
  buffer = buffer;
  counters = zero_input_counters;
}

abbrev pub Result : Type 0
Result = SenderShmReaderStatus × Option SourceFrameView × SenderShmReader

-- `frames_read++; bytes_read += read_len; read_index_++`
unfoldable pub count_read : SenderShmReader → ℕ → SenderShmReader
count_read s read_len = record s {
  read_index = u64 (s.read_index + 1);
  counters = record s.counters {
    frames_read = u64 (s.counters.frames_read + 1);
    bytes_read = u64 (s.counters.bytes_read + read_len);
  };
}

unfoldable pub reject : SenderShmReader → Result
reject s = (
  invalid,
  none,
  record s {
    counters = record s.counters { invalid_frames = u64 (s.counters.invalid_frames + 1) };
  },
)

-- `source_gap_events++`, with `missing` frames more.
unfoldable pub count_source_gap : SenderShmReader → ℕ → SenderShmReader
count_source_gap s missing = record s {
  counters = record s.counters {
    source_gap_events = u64 (s.counters.source_gap_events + 1);
    source_frames_missing = u64 (s.counters.source_frames_missing + missing);
  };
}

-- The view of the frame in the buffer, and the continuity of its `seq_id` with the last valid one.
-- A frame that does not come later is a gap too, and moves neither `prev_valid_` nor the count.
unfoldable pub classify : SenderShmReader → ℕ → ℕ → Result
unfolding count_source_gap
classify s read_len seq_id =
    if not s.has_prev_valid
    then (ok, some (view false), record s { has_prev_valid = true; prev_valid = seq_id })
    else if ltb s.prev_valid seq_id
    then (let dist = seq_id - s.prev_valid in
        if ltb 1 dist
        then (ok, some (view true), record (count_source_gap s (dist - 1)) { prev_valid = seq_id })
        else (ok, some (view false), record s { prev_valid = seq_id }))
    else (
      ok,
      some (view true),
      record s {
        counters = record s.counters { source_gap_events = u64 (s.counters.source_gap_events + 1) };
      },
    )
  where
    view : Bool → SourceFrameView
    view gap = record {
      frame_size = read_len;
      source_seq_id = seq_id;
      begins_after_source_gap = gap;
    }

module _ (p : Profile) where
  -- The frame that `ring_.read` delivered.
  unfoldable pub admit : SenderShmReader → ℕ → Result
  unfolding reject
  admit s read_len =
      let s' = count_read s read_len in
      let expected = u32 (p.frame_size s'.buffer) in
      if ltb read_len sizeof_header
      then reject s'
      else if ltb expected sizeof_header || (ltb p.max_frame expected || not (expected == read_len))
      then reject s'
      else classify s' read_len (p.seq_id s'.buffer)

  -- The `switch` on the status of the read, on the reader whose buffer the read has written.
  unfoldable pub handle : SenderShmReader → FrameStatus → Result
  handle s (Ring.FrameStatus.ok read_len) = admit s read_len
  handle s Ring.FrameStatus.empty = (
    empty,
    none,
    record s { counters = record s.counters { empty_polls = u64 (s.counters.empty_polls + 1) } },
  )
  handle s (Ring.FrameStatus.lapped resume) = (
    lapped,
    none,
    record s {
      read_index = resume;
      counters = record s.counters {
        lapped_events = u64 (s.counters.lapped_events + 1);
        lapped_frames_skipped =
            if ltb s.read_index resume
            then u64 (s.counters.lapped_frames_skipped + (resume - s.read_index))
            else s.counters.lapped_frames_skipped;
      };
    },
  )

  -- `SenderShmReader::try_read`
  unfoldable pub try_read : ℕ → SenderShmReader → Snapshots → Result
  try_read mask s v =
      let (status, out) = read v mask s.read_index s.buffer in
      handle (record s { buffer = out }) status
