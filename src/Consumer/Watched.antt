-- ===== src/Consumer/Watched.antt =====
-- The consumer's loop while a producer publishes to its ring and does not overtake it.
use low_latency_data_transfe.Ring
use low_latency_data_transfe.Base.{ℕ, ◌+◌, ◌≤◌, ◌<◌, ◌≡◌, List, [], ◌∷◌, length, get_elem?, some}
use low_latency_data_transfe.Ring.{read}
use low_latency_data_transfe.Ring.Writer.{Writer, Reach, frames, begun}
use low_latency_data_transfe.Ring.Loads.{Loads, snapshots}
use low_latency_data_transfe.Consumer.{Round}
use low_latency_data_transfe.Consumer.Course.{Event, waited, met, overtaken, Course}

abbrev pub round_at : (mask frame_cap : ℕ) → Loads mask frame_cap → ℕ → Round
round_at mask frame_cap l now = record { snapshots = snapshots mask frame_cap l; now = now }

module _ (mask frame_cap n : ℕ) where
  -- The rounds of a reader at position `i` of a ring of `n` slots: from `w` on, the producer makes any
  -- steps before, between and behind the loads of each round, and gets to `last`, but does not begin
  -- to overwrite the frame at the reader's position. The events are the frames that the
  -- reader meets, and the times at which there is none.
  pub data Rounds (last : Writer) : ℕ → Writer → List Round → List Event → Type 0 where
    over : {i : ℕ} {w : Writer} → Reach mask frame_cap w last → Rounds last i w [] []
    waits :
        {i : ℕ} {w : Writer} {rounds : List Round} {events : List Event}
        → (l : Loads mask frame_cap) (now : ℕ) → Reach mask frame_cap w l.at_seq
        → begun l.at_edge ≤ i + n
        → length (frames l.at_seq) ≤ i
        → Rounds last i l.at_edge rounds events
        → Rounds last i w (round_at mask frame_cap l now ∷ rounds) (waited now ∷ events)
    meets :
        {i : ℕ} {w : Writer} {rounds : List Round} {events : List Event}
        → (l : Loads mask frame_cap) (now : ℕ) (f : List ℕ) → Reach mask frame_cap w l.at_seq
        → begun l.at_edge ≤ i + n
        → i < length (frames l.at_seq)
        → get_elem? (frames l.at_seq) i ≡ some f
        → Rounds last (i + 1) l.at_edge rounds events
        → Rounds last i w (round_at mask frame_cap l now ∷ rounds) (met f now ∷ events)

abbrev overtaken_first : List Event → ℕ
overtaken_first [] = 0
overtaken_first (waited now ∷ events) = 0
overtaken_first (met f now ∷ events) = 0
overtaken_first (overtaken now ∷ events) = 1
