-- ===== src/Options/Yields.antt =====
-- How `parse_args` of harness/src/producer.cpp and harness/src/consumer.cpp comes back: with one exit
-- status only, and with a result as promised.
use low_latency_data_transfe.Base.{
  ℕ, ◌≡◌, refl, Bool, true, false, if◌then◌else◌, [], ◌∷◌, Option, none, some, ltb, ◌&&◌, ◌==◌, ◌^◌,
  ◌<◌, Bool-cases, arith, ◌⊎◌, inl, inr,
}
use low_latency_data_transfe.Config.{Str}
use low_latency_data_transfe.Options.{
  Completion, done, exit, uncaught, and_then, or_throw, unsigned, signed, stoull, skip_spaces,
  is_digit, decimal,
}

abbrev IsYield : {A : Type 0} → ℕ → (A → Type 0) → Completion A → Type 0
IsYield n P (done a) = P a
IsYield n P (exit status) = status ≡ n
IsYield n P uncaught = Unit {0}

-- If there is a result it has the property, and if there is an exit status it is the number.
pub record Yields {A : Type 0} (n : ℕ) (P : A → Type 0) (x : Completion A) : Type 0 where
  pub is_yield : IsYield n P x

-- The results are not told apart.
abbrev pub Anything : {A : Type 0} → A → Type 0
Anything a = Unit {0}

module _ {A : Type 0} (n : ℕ) {P : A → Type 0} where
  pub done-Yields : {a : A} → P a → Yields n P (done a)
  done-Yields h = record { is_yield = h }

  pub exit-Yields : Yields n P (exit n)
  exit-Yields = record { is_yield = refl }

  pub uncaught-Yields : Yields n P uncaught
  uncaught-Yields = record { is_yield = tt }

  pub Yields-done : (a : A) → Yields n P (done a) → P a
  Yields-done a h = h.is_yield

  pub Yields-exit : (m : ℕ) → Yields n P (exit m) → m ≡ n
  Yields-exit m h = h.is_yield

pub if-Yields :
    {A : Type 0} {n : ℕ} {P : A → Type 0} (b : Bool) {x y : Completion A}
    → Yields n P x
    → Yields n P y
    → Yields n P (if b then x else y)
if-Yields true hx hy = hx
if-Yields false hx hy = hy

pub and_then-Yields :
    {A B : Type 0} {n : ℕ} {P : A → Type 0} {Q : B → Type 0} (x : Completion A)
    (f : A → Completion B)
    → Yields n P x
    → ((a : A) → P a → Yields n Q (f a))
    → Yields n Q (and_then x f)
and_then-Yields (done a) f h all = all a h.is_yield
and_then-Yields (exit status) f h all = record { is_yield = h.is_yield }
and_then-Yields uncaught f h all = uncaught-Yields _

abbrev pub Fits64 : ℕ → Type 0
Fits64 n = n < 2 ^ 64

unsigned-Yields : (n : ℕ) (negative : Bool) (s : Str) → Yields n Fits64 (unsigned negative s)
unfolding unsigned
unsigned-Yields n negative [] = uncaught-Yields n
unsigned-Yields n negative (c ∷ cs) =
    elim (Bool-cases (is_digit c && ltb (decimal 0 (c ∷ cs)) (2 ^ 64))) [
      | inl fits ↦ simp fits (done-Yields n (ground (arith, fits)))
      | inr refused ↦ simp refused (uncaught-Yields n)
    ]

signed-Yields : (n : ℕ) (s : Str) → Yields n Fits64 (signed s)
unfolding signed
signed-Yields n [] = uncaught-Yields n
signed-Yields n (c ∷ cs) =
    if-Yields (c == 45) (unsigned-Yields n true cs)
      (if-Yields (c == 43) (unsigned-Yields n false cs) (unsigned-Yields n false (c ∷ cs)))

pub stoull-Yields : (n : ℕ) (s : Str) → Yields n Fits64 (stoull s)
unfolding stoull
stoull-Yields n s = signed-Yields n (skip_spaces s)

pub or_throw-Yields : {A : Type 0} (n : ℕ) (x : Option A) → Yields n Anything (or_throw x)
or_throw-Yields n none = uncaught-Yields n
or_throw-Yields n (some a) = done-Yields n tt

pub Completion-cases :
    {A : Type 0} (x : Completion A)
    → ((a : A) × (x ≡ done a)) ⊎ ((n : ℕ) × (x ≡ exit n)) ⊎ (x ≡ uncaught)
Completion-cases (done a) = inl (a, refl)
Completion-cases (exit n) = inr (inl (n, refl))
Completion-cases uncaught = inr (inr refl)
