-- ===== src/Ring/Window.antt =====
-- What a ring stands for: of the list of all frames ever published, the newest `slot_count`.
use native.Mathlib.Nat.{div-add-mod, one-le-pow}
use native.Mathlib.Decide.{ℕ_discrete}
use low_latency_data_transfe.Base.{
  ℕ, suc, ◌+◌, ◌*◌, ◌/◌, ◌%◌, ◌^◌, ◌≤◌, ◌<◌, ◌≡◌, ap, List, some, arith, get_or, get_elem?, take,
  length, lt-or-le, inl, inr,
}
use low_latency_data_transfe.Ring.{Slot, Region, no_slot}

-- What the slot at position `p` holds, after the frames `history`.
pub data Holds (n p : ℕ) (history : List (List ℕ)) (s : Slot) : Type 0 where
  never : length history ≤ p → s.seq ≡ 0 → Holds n p history s
  frame :
      (i : ℕ) (f : List ℕ)
      → i < length history
      → length history ≤ i + n
      → i % n ≡ p
      → s.seq ≡ suc i
      → get_elem? history i ≡ some f
      → s.frame_len ≡ length f
      → take (length f) s.frame ≡ f
      → Holds n p history s

-- A region of `2 ^ k` slots of `frame_cap` bytes, written by the publications of `history`.
pub record IsRing (frame_cap k : ℕ) (history : List (List ℕ)) (r : Region) : Type 0 where
  pub small : k < 32
  pub count : r.slot_count ≡ 2 ^ k
  pub slots_len : length r.slots ≡ 2 ^ k
  pub index : r.write_index ≡ length history
  pub frame_size : (p : ℕ) → p < 2 ^ k → length (get_or r.slots p no_slot).frame ≡ frame_cap
  pub holds : (p : ℕ) → p < 2 ^ k → Holds (2 ^ k) p history (get_or r.slots p no_slot)

-- Two indices of one window at one position are one index.
pub mod-window : (n i j : ℕ) → 0 < n → i % n ≡ j % n → i < j + n → j < i + n → i ≡ j
mod-window n i j pos e a b = elim (ℕ_discrete (i / n) (j / n)) [
  | yes q ↦ omega (arith, div-add-mod i n, div-add-mod j n, ap (λ t. n * t) q)
  | no q ↦ grind (arith, div-add-mod i n, div-add-mod j n)
]

-- Indices at one position are a whole turn apart.
pub mod-gap : (n i j : ℕ) → 0 < n → i % n ≡ j % n → i < j → i + n ≤ j
mod-gap n i j pos e lt = elim (lt-or-le j (i + n)) [
  | inl near ↦ absurd (omega (arith, mod-window n i j pos e (omega arith) near))
  | inr far ↦ far
]

pub pow2-pos : (k : ℕ) → 0 < 2 ^ k
pow2-pos k = one-le-pow k 2 (omega arith)
