-- ===== src/Base/Bits.antt =====
-- Laws of `bit_and` at variables: masks are remainders, and `(n - 1) & n` finds the powers of two.
use Prim.Native.Nat.{
  ℕ, zero, suc, ◌+◌, ◌-◌, ◌*◌, ◌/◌, ◌%◌, ◌^◌, ◌≤◌, ◌<◌, min, bit_and, digits, bit_and-bitwise,
}
use mathlib.Core.Path.{◌≡◌, refl, ap, ◌∙◌, sym}
use native.Mathlib.Nat.{
  pow-suc, one-le-pow, div-add-mod, add-mul-mod_self_left, mod-eq_of_lt, mod-lt, mod-one,
  pow-le-pow_right,
}
use mathlib.Core.Logic.{inl, inr}
use low_latency_data_transfe.Base.Tests.{lt-or-le}
use native.Mathlib.Decide.{ℕ_discrete}
use native.Mathlib.Omega.{arith}

-- The remainder by `p * 256`, byte by byte.
pub mod-byte : (x p : ℕ) → 0 < p → x % (p * 256) ≡ x / 256 % p * 256 + x % 256
mod-byte x p h =
    ap (λ t. t % (p * 256)) {x = x} {y = x / 256 % p * 256 + x % 256 + p * 256 * (x / 256 / p)}
      (omega (arith, ap (λ t. t * 256) (div-add-mod (x / 256) p)))
    ∙ add-mul-mod_self_left (x / 256 % p * 256 + x % 256) (p * 256) (x / 256 / p)
    ∙ mod-eq_of_lt (omega (arith, mod-lt (x / 256) h))

-- The same, bit by bit.
mod-bit : (x p : ℕ) → 0 < p → x % (p * 2) ≡ x / 2 % p * 2 + x % 2
mod-bit x p h =
    ap (λ t. t % (p * 2)) {x = x} {y = x / 2 % p * 2 + x % 2 + p * 2 * (x / 2 / p)}
      (omega (arith, ap (λ t. t * 2) (div-add-mod (x / 2) p)))
    ∙ add-mul-mod_self_left (x / 2 % p * 2 + x % 2) (p * 2) (x / 2 / p)
    ∙ mod-eq_of_lt (omega (arith, mod-lt (x / 2) h))

-- The recursion that `bit_and` stands for, with its fuel.
abbrev common_bits : ℕ → ℕ → ℕ → ℕ
common_bits fuel x y = digits (λ _. zero) min fuel x y

common_bits-none : (fuel x : ℕ) → common_bits fuel x 0 ≡ 0
common_bits-none zero x = refl
common_bits-none (suc fuel) zero = refl
common_bits-none (suc fuel) (suc x) = omega (arith, common_bits-none fuel (suc x / 2))

common_bits-all : (fuel x : ℕ) → x ≤ fuel → common_bits fuel x x ≡ x
common_bits-all zero x le = omega arith
common_bits-all (suc fuel) zero le = refl
common_bits-all (suc fuel) (suc x) le =
    omega (arith, common_bits-all fuel (suc x / 2) (omega arith))

-- A mask of `k` ones keeps the `k` lowest bits.
common_bits-mask :
    (fuel k x : ℕ) → x ≤ fuel → 0 < 2 ^ k → common_bits fuel x (2 ^ k - 1) ≡ x % 2 ^ k
common_bits-mask zero k x le pos =
    sym (ap (λ t. t % 2 ^ k) {x = x} {y = 0} (omega arith) ∙ mod-eq_of_lt pos)
common_bits-mask (suc fuel) k zero le pos = sym (mod-eq_of_lt pos)
common_bits-mask (suc fuel) zero (suc x) le pos =
    common_bits-none (suc fuel) (suc x) ∙ sym (mod-one (suc x))
common_bits-mask (suc fuel) (suc k) (suc x) le pos = omega (
  arith,
  common_bits-mask fuel k (suc x / 2) (omega arith) below,
  ap (common_bits fuel (suc x / 2)) half,
  mod-bit (suc x) (2 ^ k) below,
  ap (λ t. suc x % t) (pow-suc 2 k),
  pow-suc 2 k,
)
  where
    below : 0 < 2 ^ k
    below = one-le-pow k 2 (omega arith)

    half : (2 ^ suc k - 1) / 2 ≡ 2 ^ k - 1
    half = omega (arith, pow-suc 2 k)

-- `x & (2 ^ k - 1)` is the remainder by `2 ^ k`.
pub bit_and-mask : (k x : ℕ) → bit_and x (2 ^ k - 1) ≡ x % 2 ^ k
bit_and-mask k x =
    bit_and-bitwise x (2 ^ k - 1)
    ∙ common_bits-mask x k x (omega arith) (one-le-pow k 2 (omega arith))

-- A number above 0 that has no bit in common with its predecessor has a single bit.
single_bit : (fuel m : ℕ) → m ≤ fuel → common_bits fuel m (suc m) ≡ 0 → (k : ℕ) × (suc m ≡ 2 ^ k)
single_bit fuel zero le e = (0, refl)
single_bit zero (suc m) le e = absurd (omega arith)
single_bit (suc fuel) (suc m) le e = elim (ℕ_discrete (m % 2) 0) [
  | yes even ↦
      let (k, q) = single_bit fuel (suc m / 2) (omega arith) (
        omega (
          arith,
          ap (common_bits fuel (suc m / 2)) {x = suc (suc m / 2)} {y = suc (suc m) / 2}
              (omega arith),
        )) in
      (suc k, omega (arith, pow-suc 2 k))
  | no odd ↦ absurd (
      omega (
        arith,
        common_bits-all fuel (suc m / 2) (omega arith),
        ap (common_bits fuel (suc m / 2)) {x = suc m / 2} {y = suc (suc m) / 2} (omega arith),
      ))
]

-- `((n - 1) & n) == 0` finds the powers of two among the numbers that are not 0.
pub is_pow2 : (n : ℕ) → 0 < n → bit_and (n - 1) n ≡ 0 → (k : ℕ) × (n ≡ 2 ^ k)
is_pow2 zero pos e = absurd (omega arith)
is_pow2 (suc m) pos e = single_bit m m (omega arith) (
    omega (
      arith,
      e,
      bit_and-bitwise m (suc m),
      ap (λ t. bit_and t (suc m)) {x = suc m - 1} {y = m} (omega arith),
    ))

common_bits_comm : (fuel x y : ℕ) → common_bits fuel x y ≡ common_bits fuel y x
common_bits_comm zero x y = refl
common_bits_comm (suc fuel) zero zero = refl
common_bits_comm (suc fuel) zero (suc y) = sym (common_bits-none (suc fuel) (suc y))
common_bits_comm (suc fuel) (suc x) zero = common_bits-none (suc fuel) (suc x)
common_bits_comm (suc fuel) (suc x) (suc y) =
    omega (arith, common_bits_comm fuel (suc x / 2) (suc y / 2))

-- The same with the predecessor behind.
pub is_pow2_behind : (n : ℕ) → 0 < n → bit_and n (n - 1) ≡ 0 → (k : ℕ) × (n ≡ 2 ^ k)
is_pow2_behind zero pos e = absurd (omega arith)
is_pow2_behind (suc m) pos e = single_bit (suc m) m (omega arith) (
    omega (
      arith,
      e,
      bit_and-bitwise (suc m) m,
      common_bits_comm (suc m) (suc m) m,
      ap (λ t. bit_and (suc m) t) {x = suc m - 1} {y = m} (omega arith),
    ))

pub small-exponent : (k : ℕ) → 2 ^ k < 2 ^ 32 → k < 32
small-exponent k h = elim (lt-or-le k 32) [
  | inl small ↦ small
  | inr large ↦
      absurd (omega (arith, pow-le-pow_right {n = 2} (omega arith) {i = 32} {j = k} large))
]
