-- ===== src/Base/Memory.antt =====
-- Memory as a list of bytes: stores by `std::memcpy`, and the concatenation of stored pieces.
use mathlib.Core.Path.{◌≡◌, refl, ap, ◌∙◌, sym}
use mathlib.Core.List.{List, [], ◌∷◌, ◌++◌, append-nil, append_assoc}
use native.Mathlib.Omega.{arith}
use Prim.Native.Nat.{ℕ, zero, suc, ◌+◌, ◌≤◌}
use low_latency_data_transfe.Base.Lists.{length, take, drop, drop-eq, drop-nil}

module _ {ℓ} {A : Type ℓ} where
  abbrev pub concat : List (List A) → List A
  concat [] = []
  concat (xs ∷ xss) = xs ++ concat xss

  -- `std::memcpy(buf + off, src, n)` with the `n` bytes given; what falls outside `buf` is dropped.
  abbrev pub write_at : List A → ℕ → List A → List A
  write_at [] off src = []
  write_at (b ∷ bs) (suc off) src = b ∷ write_at bs off src
  write_at (b ∷ bs) zero [] = b ∷ bs
  write_at (b ∷ bs) zero (s ∷ src) = s ∷ write_at bs zero src

module _ {ℓ} {A : Type ℓ} where
  pub length-write_at :
      (buf : List A) (off : ℕ) (src : List A) → length (write_at buf off src) ≡ length buf
  length-write_at [] off src = refl
  length-write_at (b ∷ bs) (suc off) src = ap suc (length-write_at bs off src)
  length-write_at (b ∷ bs) zero [] = refl
  length-write_at (b ∷ bs) zero (s ∷ src) = ap suc (length-write_at bs zero src)

  -- A store that fits replaces exactly its own bytes.
  pub write_at_lem :
      (buf : List A) (off : ℕ) (src : List A)
      → off + length src ≤ length buf
      → write_at buf off src ≡ take off buf ++ (src ++ drop (off + length src) buf)
  write_at_lem [] zero [] h = sym (drop-nil (zero + 0))
  write_at_lem [] zero (s ∷ src) h = absurd (omega arith)
  write_at_lem [] (suc off) src h = absurd (omega arith)
  write_at_lem (b ∷ bs) (suc off) src h = ap (◌∷◌ b) (
      write_at_lem bs off src (omega arith)
      ∙ ap (λ t. take off bs ++ (src ++ t)) {x = drop (off + length src) bs}
          (drop-eq (b ∷ bs) (suc (off + length src)) (suc off + length src) (omega arith)))
  write_at_lem (b ∷ bs) zero [] h = drop-eq (b ∷ bs) 0 (zero + 0) (omega arith)
  write_at_lem (b ∷ bs) zero (s ∷ src) h = ap (◌∷◌ s) (
      write_at_lem bs zero src (omega arith)
      ∙ ap (◌++◌ src) {x = drop (zero + length src) bs}
          (drop-eq (b ∷ bs) (suc (zero + length src)) (zero + suc (length src)) (omega arith)))

  pub write_at_front :
      (buf src : List A)
      → length src ≤ length buf
      → write_at buf 0 src ≡ src ++ drop (length src) buf
  write_at_front buf src h =
      write_at_lem buf 0 src (omega arith) ∙ ap (◌++◌ src) (drop-eq buf _ _ (omega arith))

  -- A store behind a prefix leaves the prefix.
  pub write_at-append :
      (xs buf : List A) (off : ℕ) (src : List A)
      → off ≡ length xs
      → length src ≤ length buf
      → write_at (xs ++ buf) off src ≡ xs ++ (src ++ drop (length src) buf)
  write_at-append [] buf zero src e h = write_at_front buf src h
  write_at-append [] buf (suc off) src e h = absurd (omega arith)
  write_at-append (x ∷ xs) buf zero src e h = absurd (omega arith)
  write_at-append (x ∷ xs) buf (suc off) src e h =
      ap (◌∷◌ x) (write_at-append xs buf off src (omega arith) h)

  pub concat-append :
      (xss : List (List A)) (xs : List A) → concat (xss ++ xs ∷ []) ≡ concat xss ++ xs
  concat-append [] xs = append-nil xs
  concat-append (ys ∷ xss) xs =
      ap (◌++◌ ys) (concat-append xss xs) ∙ sym (append_assoc ys (concat xss) xs)
