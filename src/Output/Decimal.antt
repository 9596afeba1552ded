-- ===== src/Output/Decimal.antt =====
-- What is printed for a number is the number, to a reader of digits.
use low_latency_data_transfe.Base.{
  ℕ, zero, suc, ◌+◌, ◌*◌, ◌/◌, ◌%◌, ◌<◌, ◌≡◌, ap, ◌∙◌, [], ◌∷◌, ◌++◌, append_assoc, Bool, true,
  false, ltb, arith, Bool-cases, inl, inr,
}
use low_latency_data_transfe.Config.{Str}
use low_latency_data_transfe.Output.{decimal_digits, decimal_text}

module _ (fuel n : ℕ) where
  abbrev one_digit : Bool → Str
  one_digit b = elim b [
    | true ↦ (48 + n) ∷ []
    | false ↦ decimal_digits fuel (n / 10) ++ (48 + n % 10) ∷ []
  ]

  decimal_digits_lem : (b : Bool) → ltb n 10 ≡ b → decimal_digits (suc fuel) n ≡ one_digit b
  unfolding decimal_digits
  decimal_digits_lem b h = ap one_digit h

-- A reader, in some state with the number read so far, takes a digit.
module _ {A : Type 0} (read : ℕ → Str → A)
    (step : (n d : ℕ) (rest : Str)
      → d < 10
      → read n ((48 + d) ∷ rest) ≡ read (n * 10 + d) rest) where
  digits_lem :
      (fuel n : ℕ) (rest : Str) → n < fuel → read 0 (decimal_digits fuel n ++ rest) ≡ read n rest
  digits_lem zero n rest h = absurd (omega arith)
  digits_lem (suc fuel) n rest h = elim (Bool-cases (ltb n 10)) [
    | inl small ↦ rw (decimal_digits_lem fuel n true small) (
        step 0 n rest (ground (arith, small))
        ∙ ap (λ m. read m rest) {x = 0 * 10 + n} {y = n} (omega arith))
    | inr large ↦ rw (decimal_digits_lem fuel n false large) (
        ap (read 0) (append_assoc (decimal_digits fuel (n / 10)) ((48 + n % 10) ∷ []) rest)
        ∙ digits_lem fuel (n / 10) ((48 + n % 10) ∷ rest) (ground (arith, large))
        ∙ step (n / 10) (n % 10) rest (omega arith)
        ∙ ap (λ m. read m rest) {x = n / 10 * 10 + n % 10} {y = n} (omega arith))
  ]

  -- It gets the number from the text printed for it.
  pub decimal_text_lem : (n : ℕ) (rest : Str) → read 0 (decimal_text n ++ rest) ≡ read n rest
  unfolding decimal_text
  decimal_text_lem n rest = digits_lem (suc n) n rest (omega arith)
