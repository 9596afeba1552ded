-- ===== src/Metrics/Accumulated.antt =====
-- What the accumulator stands for: the sequence of samples recorded.
use mathlib.Core.Path.{subst₂}
use low_latency_data_transfe.Base.{
  ℕ, zero, suc, ◌+◌, ◌-◌, ◌^◌, ◌≤◌, ◌<◌, ◌≡◌, refl, sym, ap, ◌∙◌, subst, List, [], ◌∷◌, ◌++◌, arith,
  length, length-append, take, take-append_le, ltb, u64, ◌⊎◌, inl, inr, Bool-cases, lt-or-le,
  length-take,
}
use low_latency_data_transfe.Metrics.{Sample, Accumulator, accumulator, count_sample, record_sample}

-- Every number lies in a range, and a number occurs.
abbrev pub AllWithin : ℕ → ℕ → List Sample → Type 0
AllWithin low high [] = Unit {0}
AllWithin low high (s ∷ ss) = (low ≤ s.seq_id) × (s.seq_id ≤ high) × AllWithin low high ss

abbrev pub Occurs : ℕ → List Sample → Type 0
Occurs n [] = ⊥
Occurs n (s ∷ ss) = (s.seq_id ≡ n) ⊎ Occurs n ss

-- Everything is counted; the first `capacity` samples are kept and the others reported as overflow;
-- the two bounds are the least and the largest number.
pub record IsAccumulated (capacity : ℕ) (history : List Sample) (a : Accumulator) : Type 0 where
  pub room : a.capacity ≡ capacity
  pub received : a.received ≡ length history
  pub samples : a.samples ≡ take capacity history
  pub overflow : a.overflow ≡ length history - capacity
  pub within : AllWithin a.first_seq a.last_seq history
  pub first : 0 < length history → Occurs a.first_seq history
  pub last : 0 < length history → Occurs a.last_seq history

-- An accumulator starts empty.
pub accumulator-IsAccumulated : (capacity : ℕ) → IsAccumulated capacity [] (accumulator capacity)
accumulator-IsAccumulated capacity = record {
  room = refl;
  received = refl;
  samples = sym (take-none capacity);
  overflow = omega arith;
  within = tt;
  first = λ h. absurd (omega arith);
  last = λ h. absurd (omega arith);
}
  where
    take-none : (n : ℕ) → take {A = Sample} n [] ≡ []
    take-none zero = refl
    take-none (suc n) = refl

-- A range that is widened to a further number.
AllWithin-append :
    (low high low' high' : ℕ) (ss : List Sample) (s : Sample)
    → AllWithin low high ss
    → low' ≤ low
    → high ≤ high'
    → low' ≤ s.seq_id
    → s.seq_id ≤ high'
    → AllWithin low' high' (ss ++ s ∷ [])
AllWithin-append low high low' high' [] s all l h ls hs = (ls, hs, tt)
AllWithin-append low high low' high' (t ∷ ts) s all l h ls hs = (
  omega (arith, all.0),
  omega (arith, all.1),
  AllWithin-append low high low' high' ts s all.2 l h ls hs,
)

Occurs-append : (n : ℕ) (ss : List Sample) (s : Sample) → Occurs n ss → Occurs n (ss ++ s ∷ [])
Occurs-append n [] s h = absurd h
Occurs-append n (t ∷ ts) s (inl e) = inl e
Occurs-append n (t ∷ ts) s (inr h) = inr (Occurs-append n ts s h)

Occurs-last : (ss : List Sample) (s : Sample) → Occurs s.seq_id (ss ++ s ∷ [])
Occurs-last [] s = inl refl
Occurs-last (t ∷ ts) s = inr (Occurs-last ts s)

take-whole : (n : ℕ) (ss : List Sample) → length ss ≤ n → take n ss ≡ ss
take-whole zero [] le = refl
take-whole (suc n) [] le = refl
take-whole zero (s ∷ ss) le = absurd (omega arith)
take-whole (suc n) (s ∷ ss) le = ap (◌∷◌ s) (take-whole n ss (omega arith))

-- The new bounds take in the old ones and the new number, and each is one of those.
record Widens (a : Accumulator) (seq_id : ℕ) : Type 0 where
  low : (count_sample a seq_id).first_seq ≤ a.first_seq
  low_new : (count_sample a seq_id).first_seq ≤ seq_id
  high : a.last_seq ≤ (count_sample a seq_id).last_seq
  high_new : seq_id ≤ (count_sample a seq_id).last_seq
  low_is :
      ((count_sample a seq_id).first_seq ≡ seq_id)
      ⊎ ((count_sample a seq_id).first_seq ≡ a.first_seq)
  high_is :
      ((count_sample a seq_id).last_seq ≡ seq_id) ⊎ ((count_sample a seq_id).last_seq ≡ a.last_seq)

count_sample-Widens : (a : Accumulator) (seq_id : ℕ) → 0 < a.received → Widens a seq_id
unfolding count_sample
count_sample-Widens a seq_id pos = record {
  low = ground arith;
  low_new = ground arith;
  high = ground arith;
  high_new = ground arith;
  low_is = elim (Bool-cases (ltb seq_id a.first_seq)) [
    | inl less ↦ inl (ground (arith, less))
    | inr more ↦ inr (ground (arith, more))
  ];
  high_is = elim (Bool-cases (ltb a.last_seq seq_id)) [
    | inl less ↦ inl (ground (arith, less))
    | inr more ↦ inr (ground (arith, more))
  ];
}

count_sample-first :
    (a : Accumulator) (seq_id : ℕ)
    → a.received ≡ 0
    → ((count_sample a seq_id).first_seq ≡ seq_id) × ((count_sample a seq_id).last_seq ≡ seq_id)
unfolding count_sample
count_sample-first a seq_id none = (ground arith, ground arith)

-- The fields that `record_sample` leaves.
record_sample-fields :
    (a : Accumulator) (s : Sample)
    → ((record_sample a s).capacity ≡ a.capacity)
      × ((record_sample a s).received ≡ u64 (a.received + 1))
      × ((record_sample a s).first_seq ≡ (count_sample a s.seq_id).first_seq)
      × ((record_sample a s).last_seq ≡ (count_sample a s.seq_id).last_seq)
unfolding record_sample count_sample
record_sample-fields a s = (ground arith, ground arith, ground arith, ground arith)

record_sample-full :
    (a : Accumulator) (s : Sample)
    → length a.samples ≡ a.capacity
    → ((record_sample a s).samples ≡ a.samples)
      × ((record_sample a s).overflow ≡ u64 (a.overflow + 1))
unfolding record_sample count_sample
record_sample-full a s full = (ground arith, ground arith)

record_sample-stores :
    (a : Accumulator) (s : Sample)
    → length a.samples < a.capacity
    → ((record_sample a s).samples ≡ a.samples ++ s ∷ [])
      × ((record_sample a s).overflow ≡ a.overflow)
unfolding record_sample count_sample
record_sample-stores a s room = (ground arith, ground arith)

module _ (capacity : ℕ) (history : List Sample) (a : Accumulator) (s : Sample)
    (v : IsAccumulated capacity history a) where
  kept :
      length history + 1 < 2 ^ 64
      → ((record_sample a s).samples ≡ take capacity (history ++ s ∷ []))
        × ((record_sample a s).overflow ≡ length (history ++ s ∷ []) - capacity)
  kept small = elim (lt-or-le (length history) capacity) [
    | inl room ↦
        let all = v.samples ∙ take-whole capacity history (omega arith) in
        let (samples, overflow) = record_sample-stores a s (omega (arith, ap length all, v.room)) in
        (
          samples
              ∙ ap (λ t. t ++ s ∷ []) all
              ∙ sym (
                  take-whole capacity (history ++ s ∷ [])
                    (omega (arith, length-append history (s ∷ [])))),
          omega (arith, overflow, v.overflow, length-append history (s ∷ [])),
        )
    | inr full ↦
        let (samples, overflow) =
          record_sample-full a s
            (ap length v.samples ∙ length-take capacity history full ∙ sym v.room) in
        (
          samples ∙ v.samples ∙ sym (take-append_le history (s ∷ []) capacity full),
          omega (arith, overflow, v.overflow, length-append history (s ∷ [])),
        )
  ]

  bounds :
      AllWithin
        (count_sample a s.seq_id).first_seq
        (count_sample a s.seq_id).last_seq
        (history ++ s ∷ [])
      × Occurs (count_sample a s.seq_id).first_seq (history ++ s ∷ [])
      × Occurs (count_sample a s.seq_id).last_seq (history ++ s ∷ [])
  bounds = elim (lt-or-le 0 (length history)) [
    | inl pos ↦
        let w = count_sample-Widens a s.seq_id (omega (arith, v.received)) in
        (
          AllWithin-append a.first_seq a.last_seq _ _ history s v.within w.low w.high w.low_new
              w.high_new,
          one_of a.first_seq (count_sample a s.seq_id).first_seq w.low_is (v.first pos),
          one_of a.last_seq (count_sample a s.seq_id).last_seq w.high_is (v.last pos),
        )
    | inr none ↦
        let (low, high) = count_sample-first a s.seq_id (omega (arith, v.received)) in
        (
          AllWithin-append s.seq_id s.seq_id _ _ history s (nothing history none)
              (omega (arith, low)) (omega (arith, high)) (omega (arith, low)) (omega (arith, high)),
          subst (λ n. Occurs n (history ++ s ∷ [])) (sym low) (Occurs-last history s),
          subst (λ n. Occurs n (history ++ s ∷ [])) (sym high) (Occurs-last history s),
        )
  ]
    where
      nothing : (ss : List Sample) → length ss ≤ 0 → AllWithin s.seq_id s.seq_id ss
      nothing [] none = tt
      nothing (t ∷ ts) none = absurd (omega arith)

      one_of :
          (old new : ℕ)
          → (new ≡ s.seq_id) ⊎ (new ≡ old)
          → Occurs old history
          → Occurs new (history ++ s ∷ [])
      one_of old new (inl e) h =
          subst (λ n. Occurs n (history ++ s ∷ [])) (sym e) (Occurs-last history s)
      one_of old new (inr e) h =
          subst (λ n. Occurs n (history ++ s ∷ [])) (sym e) (Occurs-append old history s h)

  -- Recording keeps the accumulator in step with the sequence of samples: all are counted, the
  -- first ones kept up to the capacity and the others counted as overflow, and the bounds are the
  -- least and the largest sequence number.
  pub record_sample-IsAccumulated :
      length history + 1 < 2 ^ 64 → IsAccumulated capacity (history ++ s ∷ []) (record_sample a s)
  record_sample-IsAccumulated small =
      let (room, received, low, high) = record_sample-fields a s in
      let (samples, overflow) = kept small in
      let (within, first, last) = bounds in
      record {
        room = room ∙ v.room;
        received = omega (arith, received, v.received, length-append history (s ∷ []));
        samples = samples;
        overflow = overflow;
        within = subst₂ (λ l h. AllWithin l h (history ++ s ∷ [])) (sym low) (sym high) within;
        first = λ _. subst (λ n. Occurs n (history ++ s ∷ [])) (sym low) first;
        last = λ _. subst (λ n. Occurs n (history ++ s ∷ [])) (sym high) last;
      }
