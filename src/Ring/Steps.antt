-- ===== src/Ring/Steps.antt =====
-- What the stores of `Ring::publish` in harness/include/shm_ring.h change, one by one.
use native.Mathlib.Nat.{mod-lt}
use low_latency_data_transfe.Base.{
  ℕ, ◌+◌, ◌-◌, ◌%◌, ◌^◌, ◌≤◌, ◌<◌, ◌≡◌, refl, sym, ap, ◌∙◌, subst, List, [], ◌∷◌, ◌++◌, arith,
  bit_and, get_or, get_elem?, take, length, write_at, length-append, get_elem?-append_left,
  get_or-set_ne, get_or-set_self, set-get_or-set,
}
use low_latency_data_transfe.Base.Bits.{bit_and-mask}
use low_latency_data_transfe.Ring.{
  Slot, Region, no_slot, slot_at, store_len, store_frame, store_seq, store_write_index, publish,
}
use low_latency_data_transfe.Ring.Window.{IsRing, pow2-pos, mod-window}
use low_latency_data_transfe.Ring.Publish.{publish-IsRing}
use low_latency_data_transfe.Ring.Writer.{
  Writer, stamped, partial, now, Step, begin, copy, stamp, finish, Reach, here, next, frames, begun,
  IsWriter,
}

module _ (mask : ℕ) (r : Region) (f : List ℕ) where
  -- The stores of a publication change one slot only.
  pub partial-other :
      (j p : ℕ)
      → (bit_and r.write_index mask ≡ p → ⊥)
      → get_or (partial mask r f j).slots p no_slot ≡ get_or r.slots p no_slot
  unfolding partial store_len store_frame
  partial-other j p ne =
      get_or-set_ne _ (bit_and r.write_index mask) p _ no_slot ne
      ∙ get_or-set_ne r.slots (bit_and r.write_index mask) p _ no_slot ne

  stamped-other :
      (h : List (List ℕ)) (p : ℕ)
      → (bit_and r.write_index mask ≡ p → ⊥)
      → get_or (now mask (stamped h r f)).slots p no_slot ≡ get_or r.slots p no_slot
  unfolding now store_seq
  stamped-other h p ne =
      get_or-set_ne _ (bit_and r.write_index mask) p _ no_slot ne ∙ partial-other (length f) p ne

  -- Up to the store of `seq`, the slot keeps the old one.
  pub partial-seq :
      (j : ℕ)
      → bit_and r.write_index mask < length r.slots
      → (get_or (partial mask r f j).slots (bit_and r.write_index mask) no_slot).seq
        ≡ (get_or r.slots (bit_and r.write_index mask) no_slot).seq
  unfolding partial store_len store_frame
  partial-seq j in_range =
      ap (λ t. (get_or t q no_slot).seq)
        (set-get_or-set r.slots q (record s { frame_len = length f }) no_slot fill in_range)
      ∙ ap (λ t. t.seq) (get_or-set_self r.slots q _ no_slot in_range)
    where
      q : ℕ
      q = bit_and r.write_index mask

      s : Slot
      s = get_or r.slots q no_slot

      fill : Slot → Slot
      fill t = record t { frame = write_at t.frame 0 (take j f) }

  pub stamped-slots :
      (h : List (List ℕ)) → (now mask (stamped h r f)).slots ≡ (publish r mask f (length f)).slots
  unfolding now publish
  stamped-slots h = refl

  finish-publish :
      store_write_index (store_seq (partial mask r f (length f)) mask r.write_index) r.write_index
      ≡ publish r mask f (length f)
  unfolding publish partial
  finish-publish = refl

write_index-slots : (r : Region) (idx : ℕ) → (store_write_index r idx).slots ≡ r.slots
unfolding store_write_index
write_index-slots r idx = refl

module _ (frame_cap k : ℕ) where
  pub position :
      (h : List (List ℕ)) (r : Region)
      → IsRing frame_cap k h r
      → bit_and r.write_index (2 ^ k - 1) ≡ length h % 2 ^ k
  position h r ring = bit_and-mask k r.write_index ∙ ap (λ t. t % 2 ^ k) ring.index

  pub in_range :
      (h : List (List ℕ)) (r : Region)
      → IsRing frame_cap k h r
      → bit_and r.write_index (2 ^ k - 1) < length r.slots
  in_range h r ring =
      omega (arith, position h r ring, mod-lt (length h) (pow2-pos k), ring.slots_len)

  -- Every step leaves a producer at a well-formed ring.
  Step-IsWriter :
      {s t : Writer}
      → Step (2 ^ k - 1) frame_cap s t
      → begun t < 2 ^ 64
      → IsWriter frame_cap k s
      → IsWriter frame_cap k t
  Step-IsWriter (begin h r f fits) small v = (v, fits, omega arith)
  Step-IsWriter (copy h r f j lt) small v = (v.0, v.1, omega arith)
  Step-IsWriter (stamp h r f) small v = (v.0, v.1)
  Step-IsWriter (finish h r f) small v =
      subst (IsRing frame_cap k (h ++ f ∷ [])) (sym (finish-publish (2 ^ k - 1) r f))
        (publish-IsRing frame_cap k h r f v.1 (omega (arith, length-append h (f ∷ []))) v.0)

  Step-begun : {s t : Writer} → Step (2 ^ k - 1) frame_cap s t → begun s ≤ begun t
  Step-begun (begin h r f fits) = omega arith
  Step-begun (copy h r f j lt) = omega arith
  Step-begun (stamp h r f) = omega arith
  Step-begun (finish h r f) = omega (arith, length-append h (f ∷ []))

  -- The frames only grow.
  Step-frames :
      {s t : Writer} (i : ℕ)
      → Step (2 ^ k - 1) frame_cap s t
      → i < length (frames s)
      → (i < length (frames t)) × (get_elem? (frames t) i ≡ get_elem? (frames s) i)
  Step-frames i (begin h r f fits) lt = (lt, refl)
  Step-frames i (copy h r f j below) lt = (lt, refl)
  Step-frames i (stamp h r f) lt =
      (omega (arith, length-append h (f ∷ [])), get_elem?-append_left h (f ∷ []) i lt)
  Step-frames i (finish h r f) lt = (lt, refl)

  other :
      (h : List (List ℕ)) (r : Region) (i : ℕ)
      → IsRing frame_cap k h r
      → i < length h
      → length h < i + 2 ^ k
      → bit_and r.write_index (2 ^ k - 1) ≡ bit_and i (2 ^ k - 1)
      → ⊥
  other h r i ring lt win same = omega (
    arith,
    lt,
    mod-window (2 ^ k) i (length h) (pow2-pos k)
        (sym (bit_and-mask k i) ∙ sym same ∙ position h r ring) (omega arith) (omega arith),
  )

  -- A slot that is published stays as it is until the producer begins to overwrite it.
  Step-slot :
      {s t : Writer} (i : ℕ)
      → Step (2 ^ k - 1) frame_cap s t
      → IsWriter frame_cap k s
      → i < length (frames s)
      → begun t ≤ i + 2 ^ k
      → slot_at (now (2 ^ k - 1) t) (2 ^ k - 1) i ≡ slot_at (now (2 ^ k - 1) s) (2 ^ k - 1) i
  unfolding now
  Step-slot i (begin h r f fits) v lt win =
      partial-other (2 ^ k - 1) r f 0 _ (other h r i v lt (omega arith))
  Step-slot i (copy h r f j below) v lt win =
      let ne = other h r i v.0 lt (omega arith) in
      partial-other (2 ^ k - 1) r f (j + 1) _ ne ∙ sym (partial-other (2 ^ k - 1) r f j _ ne)
  Step-slot i (stamp h r f) v lt win =
      let ne = other h r i v.0 lt (omega arith) in
      stamped-other (2 ^ k - 1) r f h _ ne ∙ sym (partial-other (2 ^ k - 1) r f (length f) _ ne)
  Step-slot i (finish h r f) v lt win =
      ap (λ t. get_or t (bit_and i (2 ^ k - 1)) no_slot) (write_index-slots _ _)

  pub Reach-begun : {s t : Writer} → Reach (2 ^ k - 1) frame_cap s t → begun s ≤ begun t
  Reach-begun here = omega arith
  Reach-begun (next r st) = omega (arith, Reach-begun r, Step-begun st)

  pub Reach-IsWriter :
      {s t : Writer}
      → Reach (2 ^ k - 1) frame_cap s t
      → begun t < 2 ^ 64
      → IsWriter frame_cap k s
      → IsWriter frame_cap k t
  Reach-IsWriter here small v = v
  Reach-IsWriter (next r st) small v =
      Step-IsWriter st small (Reach-IsWriter r (omega (arith, Step-begun st)) v)

  pub Reach-frames :
      {s t : Writer} (i : ℕ)
      → Reach (2 ^ k - 1) frame_cap s t
      → i < length (frames s)
      → (i < length (frames t)) × (get_elem? (frames t) i ≡ get_elem? (frames s) i)
  Reach-frames i here lt = (lt, refl)
  Reach-frames i (next r st) lt =
      let (lt', e) = Reach-frames i r lt in let (lt'', e') = Step-frames i st lt' in (lt'', e' ∙ e)

  -- A published slot is as it was, up to the step that begins to overwrite it.
  pub Reach-slot :
      {s t : Writer} (i : ℕ)
      → Reach (2 ^ k - 1) frame_cap s t
      → IsWriter frame_cap k s
      → begun t < 2 ^ 64
      → i < length (frames s)
      → begun t ≤ i + 2 ^ k
      → slot_at (now (2 ^ k - 1) t) (2 ^ k - 1) i ≡ slot_at (now (2 ^ k - 1) s) (2 ^ k - 1) i
  Reach-slot i here v small lt win = refl
  Reach-slot i (next r st) v small lt win =
      Step-slot i st (Reach-IsWriter r (omega (arith, Step-begun st)) v) ((Reach-frames i r lt).0)
        win
      ∙ Reach-slot i r v (omega (arith, Step-begun st)) lt (omega (arith, Step-begun st))
