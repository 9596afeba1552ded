-- ===== src/Ring/Read.antt =====
-- `Ring::read` with no producer at work: which of its answers comes when, and what it delivers.
use native.Mathlib.Nat.{mod-lt, mod-le}
use native.Mathlib.Decide.{ℕ_discrete}
use low_latency_data_transfe.Base.{
  ℕ, zero, suc, ◌+◌, ◌-◌, ◌%◌, ◌^◌, ◌≤◌, ◌<◌, ◌≡◌, refl, sym, ap, ◌∙◌, List, ◌∷◌, some, arith,
  get_or, get_elem?, take, drop, length, u64, write_at, inl, inr, lt→ltb, le→ltb, lt-or-le,
  take-drop-suc, length-write_at, length-take-le,
}
use low_latency_data_transfe.Base.Bits.{bit_and-mask}
use low_latency_data_transfe.Ring.{
  Slot, Region, slot_at, read, copy_frame, still, resume_at, live_edge, FrameStatus, Snapshots, ok,
  empty, lapped,
}
use low_latency_data_transfe.Ring.Window.{Holds, never, frame, IsRing, pow2-pos, mod-gap}

copy_frame_from :
    (r : Region) (mask idx i n : ℕ)
    → i + n ≤ length (slot_at r mask idx).frame
    → copy_frame (λ _. r) mask idx i n ≡ take n (drop i (slot_at r mask idx).frame)
unfolding copy_frame
copy_frame_from r mask idx i zero h = refl
copy_frame_from r mask idx i (suc n) h =
    ap (◌∷◌ (get_or (slot_at r mask idx).frame i 0))
      (copy_frame_from r mask idx (i + 1) n (omega arith))
    ∙ sym (take-drop-suc (slot_at r mask idx).frame i n 0 (omega arith))

-- A copy from one region is the front of the slot's frame.
pub copy_frame-still :
    (r : Region) (mask idx n : ℕ)
    → n ≤ length (slot_at r mask idx).frame
    → copy_frame (λ _. r) mask idx 0 n ≡ take n (slot_at r mask idx).frame
copy_frame-still r mask idx n h = copy_frame_from r mask idx 0 n (omega arith)

-- What a read at `i` answers, as a function of the frames published.
abbrev pub Answers : ℕ → List (List ℕ) → ℕ → List ℕ → FrameStatus × List ℕ → Type 0
Answers n history i out (empty, out') = (length history ≤ i) × (out' ≡ out)
Answers n history i out (lapped resume, out') =
    (i + n < length history) × (resume ≡ length history - n) × (out' ≡ out)
Answers n history i out (ok len, out') =
    (f : List ℕ) × (i < length history)
    × (length history ≤ i + n)
    × (get_elem? history i ≡ some f)
    × (len ≡ length f)
    × (out' ≡ write_at out 0 f)

module _ (r : Region) (mask i : ℕ) (out : List ℕ) where
  read_before : (slot_at r mask i).seq < u64 (i + 1) → read (still r) mask i out ≡ (empty, out)
  unfolding read
  read_before h = rw (lt→ltb _ _ h)

  read_past :
      u64 (i + 1) < (slot_at r mask i).seq → read (still r) mask i out ≡ (lapped (resume_at r), out)
  unfolding read
  read_past h = rw (le→ltb (slot_at r mask i).seq (u64 (i + 1)) (omega arith), lt→ltb _ _ h)

  read_at :
      (slot_at r mask i).seq ≡ u64 (i + 1)
      → read (still r) mask i out ≡ (
        ok (slot_at r mask i).frame_len,
        write_at out 0 (copy_frame (λ _. r) mask i 0 (slot_at r mask i).frame_len),
      )
  unfolding read
  read_at h = ground arith

pub resume-lapped :
    (r : Region) (n w : ℕ) → r.slot_count ≡ n → r.write_index ≡ w → n < w → resume_at r ≡ w - n
unfolding resume_at live_edge
resume-lapped r n w e q h = ground arith

module _ (frame_cap k : ℕ) (history : List (List ℕ)) (r : Region) (out : List ℕ) where
  -- With no producer at work and fewer than 2^64 publications, a read answers empty at and beyond
  -- the edge, lapped with the oldest position held where the frame was overwritten, and otherwise
  -- delivers the frame published at that position.
  pub read-Answers :
      (i : ℕ)
      → IsRing frame_cap k history r
      → length history < 2 ^ 64
      → i + 1 < 2 ^ 64
      → Answers (2 ^ k) history i out (read (still r) (2 ^ k - 1) i out)
  read-Answers i ring small wide =
      answer (rw (bit_and-mask k i) (ring.holds (i % 2 ^ k) (mod-lt i (pow2-pos k))))
    where
      s : Slot
      s = slot_at r (2 ^ k - 1) i

      fits : (f : List ℕ) → take (length f) s.frame ≡ f → length f ≤ length s.frame
      fits f by = omega (arith, length-take-le (length f) s.frame, ap length by)

      lapped_answer :
          {j : ℕ}
          → i + 2 ^ k ≤ j
          → j < length history
          → s.seq ≡ suc j
          → Answers (2 ^ k) history i out (read (still r) (2 ^ k - 1) i out)
      lapped_answer gap lt sq =
          rw (read_past r (2 ^ k - 1) i out (omega (arith, pow2-pos k)))
            (omega arith, resume-lapped r _ _ ring.count ring.index (omega arith), refl)

      answer :
          Holds (2 ^ k) (i % 2 ^ k) history s
          → Answers (2 ^ k) history i out (read (still r) (2 ^ k - 1) i out)
      answer (never w z) =
          rw (read_before r (2 ^ k - 1) i out (omega arith)) (omega (arith, mod-le i (2 ^ k)), refl)
      answer (frame j f lt win pm sq gi ln by) = elim (ℕ_discrete j i) [
        | yes same ↦ rw (read_at r (2 ^ k - 1) i out (omega arith)) (
          f,
          omega arith,
          omega arith,
          ap (get_elem? history) (sym same) ∙ gi,
          ln,
          ap (write_at out 0) (
              ap (copy_frame (λ _. r) (2 ^ k - 1) i 0) ln
              ∙ copy_frame-still r (2 ^ k - 1) i (length f) (fits f by)
              ∙ by),
        )
        | no other ↦ elim (lt-or-le j i) [
          | inl below ↦
              rw (read_before r (2 ^ k - 1) i out (omega arith))
                (omega (arith, mod-gap (2 ^ k) j i (pow2-pos k) pm below), refl)
          | inr above ↦
              lapped_answer (mod-gap (2 ^ k) i j (pow2-pos k) (sym pm) (omega arith)) lt sq
        ]
      ]

-- A read never changes the size of the buffer it copies to.
pub length-read :
    (v : Snapshots) (mask i : ℕ) (out : List ℕ) → length (read v mask i out).1 ≡ length out
unfolding read
length-read v mask i out = ground (
  arith,
  length-write_at out 0 (copy_frame v.at_copy mask i 0 (slot_at v.at_len mask i).frame_len),
)

-- The three answers as equations.
Answers-frame :
    (n : ℕ) (history : List (List ℕ)) (i : ℕ) (out f : List ℕ) (res : FrameStatus × List ℕ)
    → Answers n history i out res
    → i < length history
    → length history ≤ i + n
    → get_elem? history i ≡ some f
    → res ≡ (ok (length f), write_at out 0 f)
Answers-frame n history i out f (empty, o) a lt win e = absurd (omega arith)
Answers-frame n history i out f (lapped x, o) a lt win e = absurd (omega arith)
Answers-frame n history i out f (ok len, o) (g, p, q, e', l, w) lt win e = ground (arith, same)
  where
    same : g ≡ f
    same = ground arith

Answers-lapped :
    (n : ℕ) (history : List (List ℕ)) (i : ℕ) (out : List ℕ) (res : FrameStatus × List ℕ)
    → Answers n history i out res
    → i + n < length history
    → res ≡ (lapped (length history - n), out)
Answers-lapped n history i out (empty, o) a lt = absurd (omega arith)
Answers-lapped n history i out (lapped x, o) a lt = ground arith
Answers-lapped n history i out (ok len, o) a lt = absurd (omega arith)

Answers-empty :
    (n : ℕ) (history : List (List ℕ)) (i : ℕ) (out : List ℕ) (res : FrameStatus × List ℕ)
    → Answers n history i out res
    → length history ≤ i
    → res ≡ (empty, out)
Answers-empty n history i out (empty, o) a le = ground arith
Answers-empty n history i out (lapped x, o) a le = absurd (omega arith)
Answers-empty n history i out (ok len, o) a le = absurd (omega arith)

module _ (frame_cap k : ℕ) (history : List (List ℕ)) (r : Region) (out : List ℕ) (i : ℕ) where
  pub read-frame :
      (f : List ℕ)
      → IsRing frame_cap k history r
      → length history < 2 ^ 64
      → i < length history
      → length history ≤ i + 2 ^ k
      → get_elem? history i ≡ some f
      → read (still r) (2 ^ k - 1) i out ≡ (ok (length f), write_at out 0 f)
  read-frame f ring small lt win e =
      Answers-frame (2 ^ k) history i out f _
        (read-Answers frame_cap k history r out i ring small (omega arith)) lt win e

  pub read-lapped :
      IsRing frame_cap k history r
      → length history < 2 ^ 64
      → i + 2 ^ k < length history
      → read (still r) (2 ^ k - 1) i out ≡ (lapped (length history - 2 ^ k), out)
  read-lapped ring small lt =
      Answers-lapped (2 ^ k) history i out _
        (read-Answers frame_cap k history r out i ring small (omega (arith, pow2-pos k))) lt

  pub read-empty :
      IsRing frame_cap k history r
      → length history < 2 ^ 64
      → i + 1 < 2 ^ 64
      → length history ≤ i
      → read (still r) (2 ^ k - 1) i out ≡ (empty, out)
  read-empty ring small wide le =
      Answers-empty (2 ^ k) history i out _
        (read-Answers frame_cap k history r out i ring small wide) le
