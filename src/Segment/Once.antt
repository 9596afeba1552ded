-- ===== src/Segment/Once.antt =====
-- harness/include/shm_segment.h: a segment that is opened is released once, however often it is moved.
use low_latency_data_transfe.Base.{
  ℕ, zero, suc, ◌≡◌, refl, sym, ap, ◌∙◌, List, [], ◌∷◌, ◌++◌, Bool, Bool-cases, false, ◌&&◌, not,
  Option-cases, some, inl, inr, if◌then◌else◌, subst, arith,
}
use mathlib.Core.Option.{some-injective}
use low_latency_data_transfe.Config.{Str}
use low_latency_data_transfe.Segment.{
  Call, shm_open, ftruncate, mmap, munmap, close, Answers, Segment, open_segment, size_segment,
  map_segment, destroy, move,
}

-- The objects that there are after moves, each of the one before; the last one has the segment.
abbrev pub moved : ℕ → Segment → List Segment
moved zero s = s ∷ []
moved (suc n) s = let (new, old) = move s in old ∷ moved n new

abbrev pub destroy_all : List Segment → List Call
destroy_all [] = []
destroy_all (s ∷ ss) = destroy s ++ destroy_all ss

destroy_all-moved : (n : ℕ) (s : Segment) → destroy_all (moved n s) ≡ destroy s ++ []
unfolding move destroy
destroy_all-moved zero s = refl
destroy_all-moved (suc n) s = destroy_all-moved n s

-- A segment in use: what was answered and called for it, and what its objects call in the end.
pub record IsOpened (answers : Answers) (name : Str) (size : ℕ) (create : Bool) (s : Segment)
    : Type 0 where
  pub fd : ℕ
  pub opened : answers.fd ≡ some fd
  pub sized : (create && not answers.truncated) ≡ false
  pub base : ℕ
  pub mapped : answers.base ≡ some base
  pub calls :
      (open_segment answers name size create).1
      ≡ shm_open name create
        ∷ ((if create then ftruncate fd size ∷ [] else []) ++ mmap size fd ∷ [])
  pub base_of : s.base ≡ some base
  pub released : (n : ℕ) → destroy_all (moved n s) ≡ munmap base size ∷ (close fd ∷ [])

module _ (answers : Answers) (name : Str) (size : ℕ) (create : Bool) where
  -- The segment of a success.
  abbrev the_segment : ℕ → ℕ → Segment
  the_segment fd base = record { name = name; fd = some fd; base = some base; size = size }

  open_segment-all :
      (fd base : ℕ)
      → answers.fd ≡ some fd
      → (create && not answers.truncated) ≡ false
      → answers.base ≡ some base
      → open_segment answers name size create ≡ (
        some (the_segment fd base),
        shm_open name create
            ∷ ((if create then ftruncate fd size ∷ [] else []) ++ mmap size fd ∷ []),
      )
  unfolding open_segment size_segment map_segment
  open_segment-all fd base opened sized mapped = ground (arith, opened, sized, mapped)

  the_segment-IsOpened :
      (fd base : ℕ)
      → answers.fd ≡ some fd
      → (create && not answers.truncated) ≡ false
      → answers.base ≡ some base
      → IsOpened answers name size create (the_segment fd base)
  unfolding destroy
  the_segment-IsOpened fd base opened sized mapped = record {
    fd = fd;
    opened = opened;
    sized = sized;
    base = base;
    mapped = mapped;
    calls = ap (λ r. r.1) (open_segment-all fd base opened sized mapped);
    base_of = refl;
    released = λ n. destroy_all-moved n (the_segment fd base);
  }

  -- `Segment::open` gives a segment only if `shm_open`, `ftruncate` where it creates, and `mmap`
  -- have succeeded, which it calls in this order and once each, `ftruncate` only where it creates;
  -- the base is the mapped one; and the destructors of all objects that there are after any number
  -- of moves together unmap the base and close the descriptor once.
  pub open_segment-IsOpened :
      (s : Segment)
      → (open_segment answers name size create).0 ≡ some s
      → IsOpened answers name size create s
  unfolding open_segment size_segment map_segment
  open_segment-IsOpened s e = elim (Option-cases answers.fd) [
    | inl closed ↦ absurd (ground (arith, closed, e))
    | inr (fd, opened) ↦ elim (Bool-cases (create && not answers.truncated)) [
      | inl short ↦ absurd (ground (arith, opened, short, e))
      | inr sized ↦ elim (Option-cases answers.base) [
        | inl failed ↦ absurd (ground (arith, opened, sized, failed, e))
        | inr (base, mapped) ↦
            subst (IsOpened answers name size create)
              (some-injective _ _
                (sym (ap (λ r. r.0) (open_segment-all fd base opened sized mapped)) ∙ e))
              (the_segment-IsOpened fd base opened sized mapped)
      ]
    ]
  ]
