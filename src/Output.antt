-- ===== src/Output.antt =====
-- The text that `fprintf` writes for the formats `%lu` and `%llu`, in src/sender_main.cpp,
-- src/receiver_main.cpp and harness/include/metrics.h.
pub mod Decimal
use low_latency_data_transfe.Base.{
  ℕ, zero, suc, ◌+◌, ◌/◌, ◌%◌, List, [], ◌∷◌, ◌++◌, true, false, ltb,
}
use low_latency_data_transfe.Config.{Str}

-- The digits of a number, of which there are fewer than the fuel.
unfoldable pub decimal_digits : ℕ → ℕ → Str
decimal_digits zero n = []
decimal_digits (suc fuel) n = elim (ltb n 10) [
  | true ↦ (48 + n) ∷ []
  | false ↦ decimal_digits fuel (n / 10) ++ (48 + n % 10) ∷ []
]

unfoldable pub decimal_text : ℕ → Str
unfolding decimal_digits
decimal_text n = decimal_digits (suc n) n
