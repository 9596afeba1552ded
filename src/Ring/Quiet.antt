-- ===== src/Ring/Quiet.antt =====
-- A read of harness/include/shm_ring.h between the stores of a producer that does not overtake it.
use low_latency_data_transfe.Base.{
  ℕ, ◌+◌, ◌-◌, ◌^◌, ◌≤◌, ◌<◌, ◌≡◌, ◌⊎◌, ap, List, some, arith, get_elem?, length, write_at, inl,
  inr,
}
use mathlib.Core.Path.{ap₂}
use low_latency_data_transfe.Ring.{read, FrameStatus, ok, empty, lapped}
use low_latency_data_transfe.Ring.Writer.{frames, begun, IsWriter}
use low_latency_data_transfe.Ring.Loads.{Loads, snapshots}
use low_latency_data_transfe.Ring.Interleaved.{Answered, read-Answered}

-- There is no frame yet, or it is read as it was published.
abbrev pub Found : List (List ℕ) → ℕ → List ℕ → FrameStatus × List ℕ → Type 0
Found published i out answer =
    ((length published ≤ i) × (answer ≡ (empty, out)))
    ⊎ ((f : List ℕ) × (i < length published)
        × (get_elem? published i ≡ some f)
        × (answer ≡ (ok (length f), write_at out 0 f)))

module _ (frame_cap k : ℕ) (l : Loads (2 ^ k - 1) frame_cap) (i : ℕ) (out : List ℕ) where
  Answered-Found :
      (answer : FrameStatus × List ℕ)
      → begun l.at_edge ≤ i + 2 ^ k
      → Answered (2 ^ k) l.at_seq l.at_recheck l.at_edge i out answer
      → Found (frames l.at_seq) i out answer
  Answered-Found (empty, out') quiet (none, same) = inl (none, ap (λ o. (empty, o)) same)
  Answered-Found (lapped resume, out') quiet (late, e) = absurd (omega (arith, late))
  Answered-Found (ok len, out') quiet (taken, inl late) = absurd (omega (arith, late))
  Answered-Found (ok len, out') quiet (taken, inr (f, lt, held, size, same)) =
      inr (f, lt, held, ap₂ (λ n o. (ok n, o)) size same)

  pub read-Found :
      IsWriter frame_cap k l.at_seq
      → begun l.at_edge < 2 ^ 64
      → i + 1 < 2 ^ 64
      → begun l.at_edge ≤ i + 2 ^ k
      → Found (frames l.at_seq) i out (read (snapshots (2 ^ k - 1) frame_cap l) (2 ^ k - 1) i out)
  read-Found v small wide quiet =
      Answered-Found _ quiet (read-Answered frame_cap k l i out v small wide)
