-- ===== src/Ring/Loads.antt =====
-- A read of harness/include/shm_ring.h between the stores of a producer: what its loads find.
use mathlib.Core.Path.{ap₂}
use native.Mathlib.Decide.{ℕ_discrete}
use low_latency_data_transfe.Base.{
  ℕ, zero, suc, ◌+◌, ◌-◌, ◌%◌, ◌^◌, ◌<◌, ◌≡◌, ◌⊎◌, refl, sym, ap, ◌∙◌, subst, List, [], ◌∷◌, ◌++◌,
  arith, bit_and, get_or, length, u64, write_at, inl, inr, lt→ltb, le→ltb,
}
use low_latency_data_transfe.Ring.{
  Slot, Region, no_slot, slot_at, read, copy_frame, resume_at, Snapshots, ok, empty, lapped,
}
use low_latency_data_transfe.Ring.Window.{Holds}
use low_latency_data_transfe.Ring.Publish.{publish-IsRing}
use low_latency_data_transfe.Ring.Writer.{
  Writer, idle, copying, stamped, partial, now, Reach, frames, begun, IsWriter,
}
use low_latency_data_transfe.Ring.Steps.{
  stamped-slots, partial-seq, partial-other, position, in_range,
}

-- Where the producer is at each load of a read; between two loads it makes any number of steps.
pub record Loads (mask frame_cap : ℕ) : Type 0 where
  pub at_seq : Writer
  pub at_len : Writer
  pub at_copy : ℕ → Writer
  pub at_recheck : Writer
  pub at_edge : Writer
  pub to_len : Reach mask frame_cap at_seq at_len
  pub to_copy : (b : ℕ) → Reach mask frame_cap at_len (at_copy b)
  pub to_recheck : (b : ℕ) → Reach mask frame_cap (at_copy b) at_recheck
  pub to_edge : Reach mask frame_cap at_recheck at_edge

-- What the read sees.
abbrev pub snapshots : (mask frame_cap : ℕ) → Loads mask frame_cap → Snapshots
snapshots mask frame_cap l = record {
  at_seq = now mask l.at_seq;
  at_len = now mask l.at_len;
  at_copy = λ b. now mask (l.at_copy b);
  at_recheck = now mask l.at_recheck;
  at_edge = now mask l.at_edge;
}

-- What a slot that is read shows: of the frames whose `seq` is stored, what the window says, unless
-- it is being overwritten; then its `seq` is still the old one.
pub record Seen (n p : ℕ) (w : Writer) (s : Slot) : Type 0 where
  pub base : Slot
  pub holds : Holds n p (frames w) base
  pub seq : s.seq ≡ base.seq
  pub same : (s ≡ base) ⊎ ((length (frames w) % n ≡ p) × (begun w ≡ length (frames w) + 1))

module _ (frame_cap k : ℕ) where
  pub now-Seen :
      (w : Writer) (p : ℕ)
      → IsWriter frame_cap k w
      → begun w < 2 ^ 64
      → p < 2 ^ k
      → Seen (2 ^ k) p w (get_or (now (2 ^ k - 1) w).slots p no_slot)
  unfolding now
  now-Seen (idle h r) p v small lt = record {
    base = get_or r.slots p no_slot;
    holds = v.holds p lt;
    seq = refl;
    same = inl refl;
  }
  now-Seen (copying h r f j) p v small lt =
      elim (ℕ_discrete (bit_and r.write_index (2 ^ k - 1)) p) [
        | yes here ↦ record {
          base = get_or r.slots p no_slot;
          holds = v.0.holds p lt;
          seq =
              subst
                (λ q.
                  (get_or (partial (2 ^ k - 1) r f j).slots q no_slot).seq
                  ≡ (get_or r.slots q no_slot).seq)
                here (partial-seq (2 ^ k - 1) r f j (in_range frame_cap k h r v.0));
          same = inr (sym (position frame_cap k h r v.0) ∙ here, refl);
        }
        | no elsewhere ↦
            let e = partial-other (2 ^ k - 1) r f j p elsewhere in
            record {
              base = get_or r.slots p no_slot;
              holds = v.0.holds p lt;
              seq = ap (λ s. s.seq) e;
              same = inl e;
            }
      ]
  now-Seen (stamped h r f) p v small lt = record {
    base = get_or (now (2 ^ k - 1) (stamped h r f)).slots p no_slot;
    holds =
        subst (λ ss. Holds (2 ^ k) p (h ++ f ∷ []) (get_or ss p no_slot))
          (sym (stamped-slots (2 ^ k - 1) r f h))
          ((publish-IsRing frame_cap k h r f v.1 small v.0).holds p lt);
    seq = refl;
    same = inl refl;
  }

-- A copy whose loads all find one slot.
pub copy_frame-same :
    (at : ℕ → Region) (r : Region) (mask idx i n : ℕ)
    → ((b : ℕ) → slot_at (at b) mask idx ≡ slot_at r mask idx)
    → copy_frame at mask idx i n ≡ copy_frame (λ _. r) mask idx i n
unfolding copy_frame
copy_frame-same at r mask idx i zero same = refl
copy_frame-same at r mask idx i (suc n) same =
    ap₂ ◌∷◌ (ap (λ s. get_or s.frame i 0) (same i)) (copy_frame-same at r mask idx (i + 1) n same)

-- The branches of a read.
module _ (v : Snapshots) (mask i : ℕ) (out : List ℕ) where
  pub read-before : (slot_at v.at_seq mask i).seq < u64 (i + 1) → read v mask i out ≡ (empty, out)
  unfolding read
  read-before h = rw (lt→ltb _ _ h)

  pub read-past :
      u64 (i + 1) < (slot_at v.at_seq mask i).seq
      → read v mask i out ≡ (lapped (resume_at v.at_edge), out)
  unfolding read
  read-past h = rw (le→ltb (slot_at v.at_seq mask i).seq (u64 (i + 1)) (omega arith), lt→ltb _ _ h)

  -- What is copied where the first test passes.
  abbrev pub copied : List ℕ
  copied = write_at out 0 (copy_frame v.at_copy mask i 0 (slot_at v.at_len mask i).frame_len)

  pub read-at :
      (slot_at v.at_seq mask i).seq ≡ u64 (i + 1)
      → (slot_at v.at_recheck mask i).seq ≡ u64 (i + 1)
      → read v mask i out ≡ (ok (slot_at v.at_len mask i).frame_len, copied)
  unfolding read
  read-at h e = ground arith

  pub read-changed :
      (slot_at v.at_seq mask i).seq ≡ u64 (i + 1)
      → ((slot_at v.at_recheck mask i).seq ≡ u64 (i + 1) → ⊥)
      → read v mask i out ≡ (lapped (resume_at v.at_edge), copied)
  unfolding read
  read-changed h ne = ground (arith, h, ne)
