-- ===== src/Ring/Writer.antt =====
-- `Ring::publish` of harness/include/shm_ring.h as steps, between which a reader may load: the stores
-- of a publication are those of Ring, with the copy byte after byte.
use low_latency_data_transfe.Base.{
  ℕ, zero, suc, subst, arith, ◌+◌, ◌≤◌, ◌<◌, List, [], ◌∷◌, ◌++◌, length,
}
use low_latency_data_transfe.Ring.{
  Region, store_len, store_frame, store_seq, store_write_index, publish,
}
use low_latency_data_transfe.Ring.Window.{IsRing}

-- Where the producer is: between publications, with the frames published so far and the region that
-- they left; in the copy of a further frame, with `j` of its bytes stored; or behind the store of
-- `seq`. The region is that before the publication.
pub data Writer : Type 0 where
  idle : List (List ℕ) → Region → Writer
  copying : List (List ℕ) → Region → List ℕ → ℕ → Writer
  stamped : List (List ℕ) → Region → List ℕ → Writer

module _ (mask : ℕ) where
  -- The region behind the copy of `j` bytes.
  unfoldable pub partial : Region → List ℕ → ℕ → Region
  unfolding store_len store_frame
  partial r f j = store_frame (store_len r mask r.write_index (length f)) mask r.write_index f j

  -- The region that a reader sees.
  unfoldable pub now : Writer → Region
  unfolding partial store_seq
  now (idle h r) = r
  now (copying h r f j) = partial r f j
  now (stamped h r f) = store_seq (partial r f (length f)) mask r.write_index

  -- A store of `publish`: `frame_len`, a byte, `seq`, `write_index`.
  pub data Step (frame_cap : ℕ) : Writer → Writer → Type 0 where
    begin :
        (h : List (List ℕ)) (r : Region) (f : List ℕ)
        → length f ≤ frame_cap
        → Step frame_cap (idle h r) (copying h r f 0)
    copy :
        (h : List (List ℕ)) (r : Region) (f : List ℕ) (j : ℕ)
        → j < length f
        → Step frame_cap (copying h r f j) (copying h r f (j + 1))
    stamp :
        (h : List (List ℕ)) (r : Region) (f : List ℕ)
        → Step frame_cap (copying h r f (length f)) (stamped h r f)
    finish :
        (h : List (List ℕ)) (r : Region) (f : List ℕ)
        → Step frame_cap (stamped h r f) (
            idle (h ++ f ∷ []) (
              store_write_index
                (store_seq (partial r f (length f)) mask r.write_index)
                r.write_index))

  pub data Reach (frame_cap : ℕ) (s : Writer) : Writer → Type 0 where
    here : Reach frame_cap s s
    next : {t u : Writer} → Reach frame_cap s t → Step frame_cap t u → Reach frame_cap s u

-- The frames whose `seq` is stored.
abbrev pub frames : Writer → List (List ℕ)
frames (idle h r) = h
frames (copying h r f j) = h
frames (stamped h r f) = h ++ f ∷ []

-- How many publications have begun.
abbrev pub begun : Writer → ℕ
begun (idle h r) = length h
begun (copying h r f j) = length h + 1
begun (stamped h r f) = length h + 1

-- The frames behind `write_index`.
abbrev pub finished : Writer → List (List ℕ)
finished (idle h r) = h
finished (copying h r f j) = h
finished (stamped h r f) = h

-- A producer at a well-formed ring, in a publication that fits.
abbrev pub IsWriter : ℕ → ℕ → Writer → Type 0
IsWriter frame_cap k (idle h r) = IsRing frame_cap k h r
IsWriter frame_cap k (copying h r f j) =
    IsRing frame_cap k h r × (length f ≤ frame_cap) × (j ≤ length f)
IsWriter frame_cap k (stamped h r f) = IsRing frame_cap k h r × (length f ≤ frame_cap)

pub Reach-trans :
    {mask frame_cap : ℕ} {s t u : Writer}
    → Reach mask frame_cap s t
    → Reach mask frame_cap t u
    → Reach mask frame_cap s u
Reach-trans r Reach.here = r
Reach-trans r (Reach.next q st) = Reach.next (Reach-trans r q) st

-- `publish` makes these steps, one after the other.
module _ (mask frame_cap : ℕ) (h : List (List ℕ)) (r : Region) (f : List ℕ)
    (fits : length f ≤ frame_cap) where
  copied-Reach : (j : ℕ) → j ≤ length f → Reach mask frame_cap (idle h r) (copying h r f j)
  copied-Reach zero le = Reach.next Reach.here (Step.begin h r f fits)
  copied-Reach (suc j) le =
      subst (λ n. Reach mask frame_cap (idle h r) (copying h r f n)) {x = j + 1} {y = suc j}
        (omega arith) (Reach.next (copied-Reach j (omega arith)) (Step.copy h r f j (omega arith)))

  pub publish-Reach :
      Reach mask frame_cap (idle h r) (idle (h ++ f ∷ []) (publish r mask f (length f)))
  unfolding publish partial
  publish-Reach =
      Reach.next (Reach.next (copied-Reach (length f) (omega arith)) (Step.stamp h r f))
        (Step.finish h r f)
