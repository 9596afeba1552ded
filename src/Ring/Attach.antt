-- ===== src/Ring/Attach.antt =====
-- `Ring::attach` by the producer: an empty ring, whatever the memory held before.
use native.Mathlib.Nat.{pow-le-pow_right}
use low_latency_data_transfe.Base.{
  ℕ, zero, suc, ◌-◌, ◌^◌, ◌<◌, ◌≡◌, refl, ap, ◌∙◌, List, [], ◌∷◌, Bool, true, Option, some, arith,
  get_or, length,
}
use low_latency_data_transfe.Ring.{Slot, Region, no_slot, reset_seqs, attach, region_size}
use low_latency_data_transfe.Ring.Window.{never, IsRing, pow2-pos}

length-reset_seqs : (n : ℕ) (ss : List Slot) → length (reset_seqs n ss) ≡ length ss
unfolding reset_seqs
length-reset_seqs zero ss = refl
length-reset_seqs (suc n) [] = refl
length-reset_seqs (suc n) (s ∷ ss) = ap suc (length-reset_seqs n ss)

get_or-reset_seqs :
    (n : ℕ) (ss : List Slot) (p : ℕ)
    → p < n
    → get_or (reset_seqs n ss) p no_slot ≡ record (get_or ss p no_slot) { seq = 0 }
unfolding reset_seqs
get_or-reset_seqs zero ss p h = absurd (omega arith)
get_or-reset_seqs (suc n) [] p h = refl
get_or-reset_seqs (suc n) (s ∷ ss) zero h = refl
get_or-reset_seqs (suc n) (s ∷ ss) (suc p) h = get_or-reset_seqs n ss p (omega arith)

-- What `ftruncate` and `mmap` promise: the memory of a created segment has room for the slots that
-- its size was computed from.
abbrev pub MapsWhole : ℕ → (List ℕ → ℕ → Bool → Option Region) → Type 0
MapsWhole frame_cap opens =
    (name : List ℕ) (slots : ℕ) (region : Region)
    → opens name (region_size frame_cap slots) true ≡ some region
    → (length region.slots ≡ slots)
      × ((p : ℕ) → p < slots → length (get_or region.slots p no_slot).frame ≡ frame_cap)

module _ (frame_cap k : ℕ) (r : Region) where
  -- Attaching as the producer to memory for 2^k slots of the frame capacity, k below 32, gives an
  -- empty ring, whatever the memory held, and the mask 2^k - 1.
  pub attach-IsRing :
      k < 32
      → length r.slots ≡ 2 ^ k
      → ((p : ℕ) → p < 2 ^ k → length (get_or r.slots p no_slot).frame ≡ frame_cap)
      → let (r', mask) = attach frame_cap r (2 ^ k) true in
        IsRing frame_cap k [] r' × (mask ≡ 2 ^ k - 1)
  unfolding attach
  attach-IsRing small len size = (
    record {
      small = small;
      count = refl;
      slots_len = length-reset_seqs (2 ^ k) r.slots ∙ len;
      index = refl;
      frame_size =
          λ p h. ap (λ s. length s.frame) (get_or-reset_seqs (2 ^ k) r.slots p h) ∙ size p h;
      holds = λ p h. never (omega arith) (ap (λ s. s.seq) (get_or-reset_seqs (2 ^ k) r.slots p h));
    },
    omega
        (arith, pow2-pos k, pow-le-pow_right {n = 2} (omega arith) {i = k} {j = 31} (omega arith)),
  )
