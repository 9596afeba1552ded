-- ===== src/Reader/Watched.antt =====
-- `try_read` of src/sender_shm_reader.cpp while a producer publishes to the source ring.
use low_latency_data_transfe.Base.{
  ℕ, ◌+◌, ◌-◌, ◌^◌, ◌≤◌, ◌<◌, ◌≡◌, ◌⊎◌, List, none, some, length, get_elem?, u64, inl, inr,
}
use low_latency_data_transfe.Message.{Profile, IsProfile}
use low_latency_data_transfe.Ring.Writer.{frames, begun, IsWriter}
use low_latency_data_transfe.Ring.Loads.{Loads, snapshots}
use low_latency_data_transfe.Ring.Quiet.{read-Found}
use low_latency_data_transfe.Reader.{SenderShmReader, Result, empty, try_read}
use low_latency_data_transfe.Reader.Ringed.{Delivers, read-Delivers, read-empty_poll}
use low_latency_data_transfe.Receiver.Writer.{IsFrame}

-- Either there is no frame yet, and only the poll is counted, or the frame is delivered.
abbrev pub Meets : Profile → SenderShmReader → List (List ℕ) → Result → Type 0
Meets p s published result =
    ((length published ≤ s.read_index)
      × (result ≡ (
        empty,
        none,
        record s {
          counters = record s.counters { empty_polls = u64 (s.counters.empty_polls + 1) };
        },
      )))
    ⊎ ((f : List ℕ) × (s.read_index < length published)
        × (get_elem? published s.read_index ≡ some f)
        × Delivers p s f result)

-- A `try_read`, between whose loads the producer of a well-formed source ring makes any stores of
-- fewer than 2^64 publications and does not begin to overwrite the frame at the reader's index:
-- either that frame is not published at the first load, and only the empty poll is counted, or the
-- frame is delivered byte for byte, with its size and number, and the index moves behind it. All
-- published frames are complete.
pub try_read-Meets :
    (p : Profile) (law : IsProfile p) (k : ℕ) (l : Loads (2 ^ k - 1) p.max_frame)
    → (s : SenderShmReader) → IsWriter p.max_frame k l.at_seq
    → begun l.at_edge < 2 ^ 64
    → s.read_index + 1 < 2 ^ 64
    → begun l.at_edge ≤ s.read_index + 2 ^ k
    → ((j : ℕ) (f : List ℕ) → get_elem? (frames l.at_seq) j ≡ some f → IsFrame p f)
    → length s.buffer ≡ p.max_frame
    → Meets p s (frames l.at_seq) (try_read p (2 ^ k - 1) s (snapshots (2 ^ k - 1) p.max_frame l))
try_read-Meets p law k l s v small wide quiet complete room =
    elim (read-Found p.max_frame k l s.read_index s.buffer v small wide quiet) [
      | inl (missing, e) ↦ inl (missing, read-empty_poll p law (2 ^ k - 1) s _ e)
      | inr (f, lt, held, e) ↦ inr (
        f,
        lt,
        held,
        read-Delivers p law (2 ^ k - 1) s _ f e (complete s.read_index f held) room wide,
      )
    ]
