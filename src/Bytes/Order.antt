-- ===== src/Bytes/Order.antt =====
-- Laws of the byte orders, and what DPDK's conversions promise.
use native.Mathlib.Nat.{pow-suc, one-le-pow, mod-one}
use low_latency_data_transfe.Base.{
  ℕ, zero, suc, ◌/◌, ◌%◌, ◌^◌, ◌<◌, ◌≡◌, refl, ap, arith, length, bit_and,
}
use low_latency_data_transfe.Base.Bits.{bit_and-mask, mod-byte}
use low_latency_data_transfe.Bytes.{be_bytes, be_value, le_value, le_bytes}

-- `rte_be_to_cpu_16`, `rte_be_to_cpu_64` and `rte_cpu_to_be_16` of DPDK: each maps the number that
-- the bytes of the one order are on the host to the number that they stand for.
pub record ByteOrder : Type 0 where
  pub be_to_cpu_16 : ℕ → ℕ
  pub be_to_cpu_64 : ℕ → ℕ
  pub cpu_to_be_16 : ℕ → ℕ

pub record IsHostOrder (o : ByteOrder) : Type 0 where
  pub be_to_cpu_16_lem : (v : ℕ) → v < 2 ^ 16 → o.be_to_cpu_16 (le_value (be_bytes 2 v)) ≡ v
  pub be_to_cpu_64_lem : (v : ℕ) → v < 2 ^ 64 → o.be_to_cpu_64 (le_value (be_bytes 8 v)) ≡ v
  pub cpu_to_be_16_lem : (v : ℕ) → v < 2 ^ 16 → o.cpu_to_be_16 v ≡ le_value (be_bytes 2 v)

pub length-be_bytes : (n v : ℕ) → length (be_bytes n v) ≡ n
length-be_bytes zero v = refl
length-be_bytes (suc n) v = ap suc (length-be_bytes n v)

pub length-le_bytes : (n v : ℕ) → length (le_bytes n v) ≡ n
length-le_bytes zero v = refl
length-le_bytes (suc n) v = ap suc (length-le_bytes n (v / 256))

pub bit_and-0xff : (v : ℕ) → bit_and v 0xff ≡ v % 256
bit_and-0xff v = bit_and-mask 8 v

pub be_value-be_bytes : (v : ℕ) → v < 2 ^ 64 → be_value 0 (be_bytes 8 v) ≡ v
be_value-be_bytes v h = omega (
  arith,
  bit_and-0xff (v / 2 ^ 56),
  bit_and-0xff (v / 2 ^ 48),
  bit_and-0xff (v / 2 ^ 40),
  bit_and-0xff (v / 2 ^ 32),
  bit_and-0xff (v / 2 ^ 24),
  bit_and-0xff (v / 2 ^ 16),
  bit_and-0xff (v / 2 ^ 8),
  bit_and-0xff (v / 1),
)

-- What is stored little-endian loads as it was.
pub le_value-le_bytes : (n v : ℕ) → le_value (le_bytes n v) ≡ v % 256 ^ n
le_value-le_bytes zero v = omega (arith, mod-one v)
le_value-le_bytes (suc n) v = omega (
  arith,
  bit_and-0xff v,
  le_value-le_bytes n (v / 256),
  mod-byte v (256 ^ n) (one-le-pow n 256 (omega arith)),
  ap (λ t. v % t) (pow-suc 256 n),
)
