-- ===== src/Ring/Torn.antt =====
-- A read while the producer is between its stores. `Ring::publish` stores length and bytes before
-- `seq`, and does not mark the slot as being written: the second load of `seq` does not see it.
use mathlib.Core.Path.{ap₂}
use native.Mathlib.Nat.{mod-lt, add-mod_right}
use low_latency_data_transfe.Base.{
  ℕ, zero, suc, ◌+◌, ◌-◌, ◌%◌, ◌^◌, ◌≤◌, ◌<◌, ◌≡◌, refl, sym, ap, ◌∙◌, List, ◌++◌, some, arith,
  bit_and, get_or, get_elem?, take, drop, length, write_at, subst, ltb, if◌then◌else◌, lt→ltb,
  le→ltb, take-drop-suc, get_or-set_self, set-get_or-set, take-take, drop-take, length-write_at,
  take-length,
}
use low_latency_data_transfe.Base.Bits.{bit_and-mask}
use low_latency_data_transfe.Ring.{
  Slot, Region, no_slot, slot_at, read, copy_frame, store_len, store_frame, Snapshots, ok,
}
use low_latency_data_transfe.Ring.Publish.{take-written}
use low_latency_data_transfe.Ring.Window.{Holds, never, frame, IsRing, pow2-pos, mod-window}

-- The region after the first two stores of a publication.
abbrev pub half_published : Region → ℕ → List ℕ → Region
half_published r mask g =
    store_frame (store_len r mask r.write_index (length g)) mask r.write_index g (length g)

-- A reader whose first `m` bytes come before those stores and the rest after them.
abbrev pub overtaken : Region → Region → ℕ → Snapshots
overtaken before after m = record {
  at_seq = before;
  at_len = after;
  at_copy = λ b. if ltb b m then before else after;
  at_recheck = after;
  at_edge = after;
}

module _ (r₁ r₂ : Region) (mask idx m : ℕ) where
  abbrev at : ℕ → Region
  at b = if ltb b m then r₁ else r₂

  copy_after :
      (i n : ℕ)
      → m ≤ i
      → i + n ≤ length (slot_at r₂ mask idx).frame
      → copy_frame at mask idx i n ≡ take n (drop i (slot_at r₂ mask idx).frame)
  unfolding copy_frame
  copy_after i zero p h = refl
  copy_after i (suc n) p h =
      rw (le→ltb i m p, copy_after (i + 1) n (omega arith) (omega arith))
        (sym (take-drop-suc (slot_at r₂ mask idx).frame i n 0 (omega arith)))

  -- The copy is torn at byte `m`.
  copy_torn :
      (i a n : ℕ)
      → i + a ≡ m
      → m ≤ length (slot_at r₁ mask idx).frame
      → m + n ≤ length (slot_at r₂ mask idx).frame
      → copy_frame at mask idx i (a + n)
        ≡ take a (drop i (slot_at r₁ mask idx).frame) ++ take n (drop m (slot_at r₂ mask idx).frame)
  unfolding copy_frame
  copy_torn i zero n e p h =
      ap (copy_frame at mask idx i) {x = 0 + n} {y = n} (omega arith)
      ∙ copy_after i n (omega arith) (omega arith)
      ∙ ap (λ t. take n (drop t (slot_at r₂ mask idx).frame)) {x = i} {y = m} (omega arith)
  copy_torn i (suc a) n e p h =
      ap (copy_frame at mask idx i) {x = suc a + n} {y = suc (a + n)} (omega arith)
      ∙ rw (lt→ltb i m (omega arith), copy_torn (i + 1) a n (omega arith) p h)
          (ap (λ t. t ++ take n (drop m (slot_at r₂ mask idx).frame))
            (sym (take-drop-suc (slot_at r₁ mask idx).frame i a 0 (omega arith))))

half_published-slot :
    (r : Region) (mask : ℕ) (g : List ℕ)
    → bit_and r.write_index mask < length r.slots
    → slot_at (half_published r mask g) mask r.write_index ≡ record (slot_at r mask r.write_index) {
      frame_len = length g;
      frame = write_at (slot_at r mask r.write_index).frame 0 g;
    }
unfolding store_frame store_len
half_published-slot r mask g h =
    ap (λ t. get_or t q no_slot)
      (set-get_or-set r.slots q (record s { frame_len = length g }) no_slot fill h)
    ∙ get_or-set_self r.slots q _ no_slot h
    ∙ ap (λ t. record s { frame_len = length g; frame = write_at s.frame 0 t }) (take-length g)
  where
    q : ℕ
    q = bit_and r.write_index mask

    s : Slot
    s = slot_at r mask r.write_index

    fill : Slot → Slot
    fill t = record t { frame = write_at t.frame 0 (take (length g) g) }

record Oldest (i : ℕ) (f : List ℕ) (s : Slot) : Type 0 where
  seq : s.seq ≡ suc i
  bytes : take (length f) s.frame ≡ f

-- The oldest frame of a full ring is in the slot that is written next.
oldest :
    (n : ℕ) (history : List (List ℕ)) (i : ℕ) (f : List ℕ) (s : Slot)
    → 0 < n
    → length history ≡ i + n
    → get_elem? history i ≡ some f
    → Holds n (i % n) history s
    → Oldest i f s
oldest n history i f s pos full old (never w z) = absurd (omega (arith, mod-lt i pos))
oldest n history i f s pos full old (frame j g lt win pm sq gi ln by) = record {
  seq = omega (arith, same);
  bytes = rw is_g by;
}
  where
    same : j ≡ i
    same = mod-window n j i pos pm (omega arith) (omega arith)

    is_g : f ≡ g
    is_g = ground (arith, ap (get_elem? history) same)

module _ (frame_cap k : ℕ) (history : List (List ℕ)) (r : Region) (i m : ℕ) (f g out : List ℕ) where
  -- A reader of the oldest frame that the producer overtakes in the middle of the copy, before the
  -- producer's store of the sequence number, gets the status ok and a mixture of the old and the
  -- new frame.
  pub read-overtaken :
      IsRing frame_cap k history r
      → length history ≡ i + 2 ^ k
      → get_elem? history i ≡ some f
      → length f ≡ length g
      → length g ≤ frame_cap
      → i + 1 < 2 ^ 64
      → m ≤ length g
      → read (overtaken r (half_published r (2 ^ k - 1) g) m) (2 ^ k - 1) i out
        ≡ (ok (length g), write_at out 0 (take m f ++ drop m g))
  unfolding read
  read-overtaken ring full old same fits wide cut =
      ground (arith, o.seq, ap (λ t. t.seq) after, ap (λ t. t.frame_len) after, copied)
    where
      mask : ℕ
      mask = 2 ^ k - 1

      position : bit_and r.write_index mask ≡ bit_and i mask
      position =
          bit_and-mask k r.write_index
          ∙ ap (λ t. t % 2 ^ k) (ring.index ∙ full)
          ∙ add-mod_right i (2 ^ k)
          ∙ sym (bit_and-mask k i)

      s : Slot
      s = slot_at r mask i

      o : Oldest i f s
      o =
          oldest (2 ^ k) history i f s (pow2-pos k) full old
            (rw (bit_and-mask k i) (ring.holds (i % 2 ^ k) (mod-lt i (pow2-pos k))))

      in_range : bit_and i mask < length r.slots
      in_range = omega (arith, bit_and-mask k i, mod-lt i (pow2-pos k), ring.slots_len)

      size : length s.frame ≡ frame_cap
      size = rw (bit_and-mask k i) (ring.frame_size (i % 2 ^ k) (mod-lt i (pow2-pos k)))

      half : Region
      half = half_published r mask g

      after : slot_at half mask i ≡ record s { frame_len = length g; frame = write_at s.frame 0 g }
      after =
          subst
            (λ q. get_or half.slots q no_slot ≡ record (get_or r.slots q no_slot) {
              frame_len = length g;
              frame = write_at (get_or r.slots q no_slot).frame 0 g;
            })
            position (half_published-slot r mask g (omega (arith, position, in_range)))

      n : ℕ
      n = length g - m

      at_byte : ℕ → Region
      at_byte b = if ltb b m then r else half

      front : take m s.frame ≡ take m f
      front = sym (take-take m (length f) s.frame (omega arith)) ∙ ap (take m) o.bytes

      stored : take (m + n) (slot_at half mask i).frame ≡ g
      stored =
          ap (take (m + n)) (ap (λ t. t.frame) after)
          ∙ ap (λ t. take t (write_at s.frame 0 g)) {x = m + n} {y = length g} (omega arith)
          ∙ take-written s g (omega (arith, size))

      back : take n (drop m (slot_at half mask i).frame) ≡ drop m g
      back = sym (drop-take m n (slot_at half mask i).frame) ∙ ap (drop m) stored

      copied :
          copy_frame (λ b. if ltb b m then r else half) mask i 0 (length g) ≡ take m f ++ drop m g
      copied =
          ap (copy_frame at_byte mask i 0) {x = length g} {y = m + n} (omega arith)
          ∙ copy_torn r half mask i m 0 m n (omega arith) (omega (arith, size))
              (rw after (omega (arith, length-write_at s.frame 0 g, size)))
          ∙ ap₂ ◌++◌ front back
