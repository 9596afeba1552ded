-- ===== src/Metrics/Sorted.antt =====
-- The sorting of latencies in harness/include/metrics.h. What it keeps: the numbers, and their count;
-- what it makes: an order by position.
use low_latency_data_transfe.Base.{
  ℕ, zero, suc, ◌+◌, ◌<◌, ◌≤◌, ◌≡◌, refl, List, [], ◌∷◌, ◌⊎◌, inl, inr, true, false, leb, arith,
  length, get_or, Bool-cases,
}
use low_latency_data_transfe.Metrics.{insert, sort}

abbrev pub In : ℕ → List ℕ → Type 0
In n [] = ⊥
In n (x ∷ xs) = (x ≡ n) ⊎ In n xs

abbrev AtLeast : ℕ → List ℕ → Type 0
AtLeast low [] = Unit {0}
AtLeast low (x ∷ xs) = (low ≤ x) × AtLeast low xs

abbrev Sorted : List ℕ → Type 0
Sorted [] = Unit {0}
Sorted (x ∷ xs) = AtLeast x xs × Sorted xs

AtLeast-le : (low low' : ℕ) (xs : List ℕ) → low ≤ low' → AtLeast low' xs → AtLeast low xs
AtLeast-le low low' [] le all = tt
AtLeast-le low low' (x ∷ xs) le all = (omega (arith, all.0), AtLeast-le low low' xs le all.1)

AtLeast-get_or :
    (low : ℕ) (xs : List ℕ) (i : ℕ) → AtLeast low xs → i < length xs → low ≤ get_or xs i 0
AtLeast-get_or low [] i all h = absurd (omega arith)
AtLeast-get_or low (x ∷ xs) zero all h = all.0
AtLeast-get_or low (x ∷ xs) (suc i) all h = AtLeast-get_or low xs i all.1 (omega arith)

module _ (x y : ℕ) (ys : List ℕ) where
  insert-front : leb x y ≡ true → insert x (y ∷ ys) ≡ x ∷ (y ∷ ys)
  unfolding insert
  insert-front h = simp h refl

  insert-behind : leb x y ≡ false → insert x (y ∷ ys) ≡ y ∷ insert x ys
  unfolding insert
  insert-behind h = simp h refl

insert-nil : (x : ℕ) → insert x [] ≡ x ∷ []
unfolding insert
insert-nil x = refl

-- A property of both results of an insertion holds of the insertion.
insert-elim :
    (P : ℕ → List ℕ → List ℕ → Type 0)
    → ((x : ℕ) → P x [] (x ∷ []))
    → ((x y : ℕ) (ys : List ℕ) → x ≤ y → P x (y ∷ ys) (x ∷ (y ∷ ys)))
    → ((x y : ℕ) (ys : List ℕ) → y < x → P x ys (insert x ys) → P x (y ∷ ys) (y ∷ insert x ys))
    → (x : ℕ) (ys : List ℕ) → P x ys (insert x ys)
insert-elim P nil front behind x [] = rw (insert-nil x) (nil x)
insert-elim P nil front behind x (y ∷ ys) = elim (Bool-cases (leb x y)) [
  | inl h ↦ rw (insert-front x y ys h) (front x y ys (ground (arith, h)))
  | inr h ↦
      rw (insert-behind x y ys h)
        (behind x y ys (ground (arith, h)) (insert-elim P nil front behind x ys))
]

length-insert : (x : ℕ) (ys : List ℕ) → length (insert x ys) ≡ length ys + 1
length-insert =
    insert-elim (λ x ys zs. length zs ≡ length ys + 1) (λ x. omega arith) (λ x y ys le. omega arith)
      (λ x y ys lt e. omega (arith, e))

AtLeast-insert : (low x : ℕ) (ys : List ℕ) → low ≤ x → AtLeast low ys → AtLeast low (insert x ys)
AtLeast-insert low =
    insert-elim (λ x ys zs. low ≤ x → AtLeast low ys → AtLeast low zs) (λ x le all. (le, tt))
      (λ x y ys h le all. (le, all)) (λ x y ys h go le all. (all.0, go le all.1))

insert-Sorted : (x : ℕ) (ys : List ℕ) → Sorted ys → Sorted (insert x ys)
insert-Sorted =
    insert-elim (λ x ys zs. Sorted ys → Sorted zs) (λ x v. (tt, tt))
      (λ x y ys le v. ((le, AtLeast-le x y ys le v.0), v))
      (λ x y ys lt go v. (AtLeast-insert y x ys (omega arith) v.0, go v.1))

In-insert : (n x : ℕ) (ys : List ℕ) → (x ≡ n) ⊎ In n ys → In n (insert x ys)
In-insert n =
    insert-elim (λ x ys zs. (x ≡ n) ⊎ In n ys → In n zs) (λ x h. h) (λ x y ys le h. h)
      (λ x y ys lt go h. later x y ys (insert x ys) go h)
  where
    later :
        (x y : ℕ) (ys zs : List ℕ)
        → ((x ≡ n) ⊎ In n ys → In n zs)
        → (x ≡ n) ⊎ ((y ≡ n) ⊎ In n ys)
        → (y ≡ n) ⊎ In n zs
    later x y ys zs go (inl e) = inr (go (inl e))
    later x y ys zs go (inr (inl e)) = inl e
    later x y ys zs go (inr (inr h)) = inr (go (inr h))

insert-In : (n x : ℕ) (ys : List ℕ) → In n (insert x ys) → (x ≡ n) ⊎ In n ys
insert-In n =
    insert-elim (λ x ys zs. In n zs → (x ≡ n) ⊎ In n ys) (λ x h. h) (λ x y ys le h. h)
      (λ x y ys lt go h. later x y ys (insert x ys) go h)
  where
    later :
        (x y : ℕ) (ys zs : List ℕ)
        → (In n zs → (x ≡ n) ⊎ In n ys)
        → (y ≡ n) ⊎ In n zs
        → (x ≡ n) ⊎ ((y ≡ n) ⊎ In n ys)
    later x y ys zs go (inl e) = inr (inl e)
    later x y ys zs go (inr h) = elim (go h) [ inl e ↦ inl e | inr h' ↦ inr (inr h') ]

pub length-sort : (xs : List ℕ) → length (sort xs) ≡ length xs
unfolding sort
length-sort [] = refl
length-sort (x ∷ xs) = omega (arith, length-insert x (sort xs), length-sort xs)

sort-Sorted : (xs : List ℕ) → Sorted (sort xs)
unfolding sort
sort-Sorted [] = tt
sort-Sorted (x ∷ xs) = insert-Sorted x (sort xs) (sort-Sorted xs)

pub In-sort : (n : ℕ) (xs : List ℕ) → In n xs → In n (sort xs)
unfolding sort
In-sort n [] h = h
In-sort n (x ∷ xs) (inl e) = In-insert n x (sort xs) (inl e)
In-sort n (x ∷ xs) (inr h) = In-insert n x (sort xs) (inr (In-sort n xs h))

pub sort-In : (n : ℕ) (xs : List ℕ) → In n (sort xs) → In n xs
unfolding sort
sort-In n [] h = h
sort-In n (x ∷ xs) h = elim (insert-In n x (sort xs) h) [
  | inl e ↦ inl e
  | inr h' ↦ inr (sort-In n xs h')
]

pub In-get_or : (xs : List ℕ) (i : ℕ) → i < length xs → In (get_or xs i 0) xs
In-get_or [] i h = absurd (omega arith)
In-get_or (x ∷ xs) zero h = inl refl
In-get_or (x ∷ xs) (suc i) h = inr (In-get_or xs i (omega arith))

-- The position of a number.
pub In-position : (n : ℕ) (xs : List ℕ) → In n xs → (i : ℕ) × (i < length xs) × (get_or xs i 0 ≡ n)
In-position n [] h = absurd h
In-position n (x ∷ xs) (inl e) = (0, omega arith, e)
In-position n (x ∷ xs) (inr h) =
    let (i, lt, e) = In-position n xs h in (suc i, omega (arith, lt), e)

Sorted-get_or :
    (xs : List ℕ) (i j : ℕ) → Sorted xs → i ≤ j → j < length xs → get_or xs i 0 ≤ get_or xs j 0
Sorted-get_or [] i j v le h = absurd (omega arith)
Sorted-get_or (x ∷ xs) zero zero v le h = omega arith
Sorted-get_or (x ∷ xs) zero (suc j) v le h = AtLeast-get_or x xs j v.0 (omega arith)
Sorted-get_or (x ∷ xs) (suc i) zero v le h = absurd (omega arith)
Sorted-get_or (x ∷ xs) (suc i) (suc j) v le h = Sorted-get_or xs i j v.1 (omega arith) (omega arith)

pub sort-get_or :
    (xs : List ℕ) (i j : ℕ) → i ≤ j → j < length xs → get_or (sort xs) i 0 ≤ get_or (sort xs) j 0
sort-get_or xs i j le h =
    Sorted-get_or (sort xs) i j (sort-Sorted xs) le (omega (arith, length-sort xs))
