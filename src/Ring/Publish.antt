-- ===== src/Ring/Publish.antt =====
-- `Ring::publish` keeps the window: the ring then stands for one more frame.
use native.Mathlib.Nat.{mod-lt, mod-eq_of_lt, add-mod_right}
use low_latency_data_transfe.Base.{
  ℕ, ◌≢◌, ◌+◌, ◌-◌, ◌%◌, ◌^◌, ◌≤◌, ◌<◌, ◌≡◌, refl, ap, ◌∙◌, List, [], ◌∷◌, ◌++◌, arith, bit_and,
  get_or, take, length, set, u64, write_at, set-get_or-set, get_or-set_cases, length-set,
  length-append, write_at_lem, length-write_at, take-append, take-length, get_elem?-append_left,
  get_elem?-append_last,
}
use low_latency_data_transfe.Base.Bits.{bit_and-mask}
use low_latency_data_transfe.Ring.{Slot, Region, no_slot, slot_at, publish}
use low_latency_data_transfe.Ring.Window.{Holds, never, frame, IsRing, pow2-pos}

-- The slot that a publication at `idx` leaves, where `s` was.
abbrev pub written : Slot → ℕ → List ℕ → ℕ → Slot
written s idx f len = record {
  seq = u64 (idx + 1);
  frame_len = len;
  frame = write_at s.frame 0 (take len f);
}

-- The four stores together.
pub publish_lem :
    (r : Region) (mask : ℕ) (f : List ℕ) (len : ℕ)
    → bit_and r.write_index mask < length r.slots
    → publish r mask f len ≡ record r {
      slots =
          set r.slots
            (bit_and r.write_index mask)
            (written (slot_at r mask r.write_index) r.write_index f len);
      write_index = u64 (r.write_index + 1);
    }
unfolding publish
publish_lem r mask f len h =
    ap (λ t. record r { slots = t; write_index = u64 (r.write_index + 1) })
      (ap (λ t. set t q (stamp (get_or t q no_slot))) (set-get_or-set r.slots q _ no_slot fill h)
        ∙ set-get_or-set r.slots q _ no_slot stamp h)
  where
    q : ℕ
    q = bit_and r.write_index mask

    fill : Slot → Slot
    fill s = record s { frame = write_at s.frame 0 (take len f) }

    stamp : Slot → Slot
    stamp s = record s { seq = u64 (r.write_index + 1) }

-- Only the `len` bytes at the pointer count.
pub publish-take :
    (r : Region) (mask : ℕ) (f rest : List ℕ)
    → publish r mask (f ++ rest) (length f) ≡ publish r mask f (length f)
unfolding publish
publish-take r mask f rest = rw (take-append f rest (length f) refl, take-length f)

-- A frame stored in a slot is at its front.
pub take-written :
    (s : Slot) (f : List ℕ) → length f ≤ length s.frame → take (length f) (write_at s.frame 0 f) ≡ f
take-written s f h =
    ap (take (length f)) (write_at_lem s.frame 0 f (omega arith)) ∙ take-append f _ (length f) refl

module _ (history : List (List ℕ)) (f : List ℕ) (n : ℕ) where
  -- Positions other than the one written keep what they hold.
  Holds-other :
      (p : ℕ) (s : Slot)
      → 0 < n
      → p < n
      → (length history % n ≡ p → ⊥)
      → Holds n p history s
      → Holds n p (history ++ f ∷ []) s
  Holds-other p s pos small ne (never w e) =
      never (omega (arith, length-append history (f ∷ []), lt)) e
    where
      lt : length history ≢ p
      lt q = ne (mod-eq_of_lt (omega arith) ∙ q)
  Holds-other p s pos small ne (frame i g lt win pm sq gi ln by) =
      frame i g (omega (arith, length-append history (f ∷ [])))
        (omega (arith, length-append history (f ∷ []), moved)) pm sq
        (get_elem?-append_left history (f ∷ []) i lt ∙ gi) ln by
    where
      moved : length history ≢ i + n
      moved q = ne (ap (λ t. t % n) q ∙ add-mod_right i n ∙ pm)

  -- The position written holds the new frame.
  Holds-written :
      (s : Slot)
      → 0 < n
      → length f ≤ length s.frame
      → length history + 1 < 2 ^ 64
      → Holds n (length history % n) (history ++ f ∷ []) (written s (length history) f (length f))
  Holds-written s pos fits small =
      frame (length history) f (omega (arith, length-append history (f ∷ [])))
        (omega (arith, length-append history (f ∷ []))) refl (omega arith)
        (get_elem?-append_last history f) refl (rw (take-length f) (take-written s f fits))

module _ (frame_cap k : ℕ) (history : List (List ℕ)) (r : Region) (f : List ℕ) where
  -- The region that `publish_lem` gives.
  abbrev published : ℕ → ℕ → Region
  published q w = record r {
    slots = set r.slots q (written (get_or r.slots q no_slot) w f (length f));
    write_index = u64 (w + 1);
  }

  published-IsRing :
      (q w : ℕ)
      → length f ≤ frame_cap
      → length history + 1 < 2 ^ 64
      → IsRing frame_cap k history r
      → w ≡ length history
      → q ≡ length history % 2 ^ k
      → IsRing frame_cap k (history ++ f ∷ []) (published q w)
  published-IsRing q w fits small ring ew eq =
      rw (ew, eq)
        record {
          small = ring.small;
          count = ring.count;
          slots_len = length-set r.slots _ _ ∙ ring.slots_len;
          index = omega (arith, length-append history (f ∷ []));
          frame_size = λ p h.
              get_or-set_cases (λ _ s. length s.frame ≡ frame_cap) r.slots (length history % 2 ^ k)
                p v no_slot in_range kept (λ _. ring.frame_size p h);
          holds = λ p h.
              get_or-set_cases (λ t s. Holds (2 ^ k) t (history ++ f ∷ []) s) r.slots
                (length history % 2 ^ k) p v no_slot in_range
                (Holds-written history f (2 ^ k) (get_or r.slots (length history % 2 ^ k) no_slot)
                  (pow2-pos k) (omega (arith, ring.frame_size _ below)) small)
                (λ ne. Holds-other history f (2 ^ k) p _ (pow2-pos k) h ne (ring.holds p h));
        }
    where
      v : Slot
      v = written (get_or r.slots (length history % 2 ^ k) no_slot) (length history) f (length f)

      below : length history % 2 ^ k < 2 ^ k
      below = mod-lt (length history) (pow2-pos k)

      old : Slot
      old = get_or r.slots (length history % 2 ^ k) no_slot

      kept : length v.frame ≡ frame_cap
      kept = length-write_at old.frame 0 (take (length f) f) ∙ ring.frame_size _ below

      in_range : length history % 2 ^ k < length r.slots
      in_range = omega (arith, below, ring.slots_len)

  -- Publishing a frame that fits a slot, with fewer than 2^64 publications, makes a ring that
  -- stands for a list of published frames stand for that list with the frame behind it.
  pub publish-IsRing :
      length f ≤ frame_cap
      → length history + 1 < 2 ^ 64
      → IsRing frame_cap k history r
      → IsRing frame_cap k (history ++ f ∷ []) (publish r (2 ^ k - 1) f (length f))
  publish-IsRing fits small ring =
      rw (publish_lem r (2 ^ k - 1) f (length f) in_range)
        (published-IsRing _ _ fits small ring ring.index position)
    where
      position : bit_and r.write_index (2 ^ k - 1) ≡ length history % 2 ^ k
      position = bit_and-mask k r.write_index ∙ ap (λ t. t % 2 ^ k) ring.index

      in_range : bit_and r.write_index (2 ^ k - 1) < length r.slots
      in_range = omega (arith, position, mod-lt (length history) (pow2-pos k), ring.slots_len)
