-- ===== src/Ring/Interleaved.antt =====
-- A read of harness/include/shm_ring.h between the stores of a producer: what it answers.
use native.Mathlib.Nat.{mod-lt, mod-le}
use native.Mathlib.Decide.{ℕ_discrete}
use low_latency_data_transfe.Base.{
  ℕ, ◌+◌, ◌-◌, ◌%◌, ◌^◌, ◌≤◌, ◌<◌, ◌≡◌, ◌⊎◌, refl, sym, ap, ◌∙◌, List, [], ◌∷◌, some, arith,
  get_elem?, take, length, u64, write_at, inl, inr, lt-or-le, length-append, length-take-le,
}
use low_latency_data_transfe.Base.Bits.{bit_and-mask}
use low_latency_data_transfe.Ring.{
  Slot, Region, slot_at, read, copy_frame, resume_at, live_edge, FrameStatus, Snapshots, ok, empty,
  lapped,
}
use low_latency_data_transfe.Ring.Window.{Holds, never, frame, pow2-pos, mod-gap}
use low_latency_data_transfe.Ring.Read.{copy_frame-still}
use low_latency_data_transfe.Ring.Writer.{
  Writer, idle, copying, stamped, now, Reach, frames, begun, finished, IsWriter, Reach-trans,
}
use low_latency_data_transfe.Ring.Steps.{Reach-begun, Reach-IsWriter, Reach-slot}
use low_latency_data_transfe.Ring.Loads.{
  Loads, snapshots, Seen, now-Seen, copy_frame-same, read-before, read-past, read-at, read-changed,
}

-- What a read at `i` answers between the steps of a producer, of a ring of `n` slots.
abbrev pub Answered : ℕ → Writer → Writer → Writer → ℕ → List ℕ → FrameStatus × List ℕ → Type 0
Answered n first recheck last i out (empty, out') = (length (frames first) ≤ i) × (out' ≡ out)
Answered n first recheck last i out (lapped resume, out') =
    (i + n < begun last) × (resume ≡ length (finished last) - n)
Answered n first recheck last i out (ok len, out') =
    (length (frames recheck) ≤ i + n)
    × ((i + n < begun last)
        ⊎ ((f : List ℕ) × (i < length (frames first))
            × (get_elem? (frames first) i ≡ some f)
            × (len ≡ length f)
            × (out' ≡ write_at out 0 f)))

module _ (frame_cap k : ℕ) (l : Loads (2 ^ k - 1) frame_cap) where
  abbrev seen : Snapshots
  seen = snapshots (2 ^ k - 1) frame_cap l

  begun-edge :
      (begun l.at_seq ≤ begun l.at_edge)
      × (begun l.at_len ≤ begun l.at_edge)
      × ((b : ℕ) → begun (l.at_copy b) ≤ begun l.at_edge)
      × (begun l.at_recheck ≤ begun l.at_edge)
  begun-edge =
      let a = Reach-begun frame_cap k l.to_len in
      let b = Reach-begun frame_cap k (l.to_copy 0) in
      let c = Reach-begun frame_cap k (l.to_recheck 0) in
      let d = Reach-begun frame_cap k l.to_edge in
      (
        omega (arith, a, b, c, d),
        omega (arith, b, c, d),
        (λ x. omega (arith, Reach-begun frame_cap k (l.to_recheck x), d)),
        omega (arith, d),
      )

  -- While the producer has not begun to overwrite a published slot, every load finds the same.
  module _ (i : ℕ) (v : IsWriter frame_cap k l.at_seq) (small : begun l.at_edge < 2 ^ 64)
      (lt : i < length (frames l.at_seq)) (quiet : begun l.at_edge ≤ i + 2 ^ k) where
    abbrev first_slot : Slot
    first_slot = slot_at (now (2 ^ k - 1) l.at_seq) (2 ^ k - 1) i

    same_from :
        {t : Writer}
        → Reach (2 ^ k - 1) frame_cap l.at_seq t
        → begun t ≤ begun l.at_edge
        → slot_at (now (2 ^ k - 1) t) (2 ^ k - 1) i ≡ first_slot
    same_from r le = Reach-slot frame_cap k i r v (omega arith) lt (omega arith)

    same_len : slot_at seen.at_len (2 ^ k - 1) i ≡ first_slot
    same_len = same_from l.to_len (begun-edge.1)

    same_copy : (b : ℕ) → slot_at (seen.at_copy b) (2 ^ k - 1) i ≡ first_slot
    same_copy b = same_from (Reach-trans l.to_len (l.to_copy b)) (begun-edge.2 b)

    same_recheck : slot_at seen.at_recheck (2 ^ k - 1) i ≡ first_slot
    same_recheck =
        same_from (Reach-trans (Reach-trans l.to_len (l.to_copy 0)) (l.to_recheck 0)) (begun-edge.3)

frames-begun : (w : Writer) → length (frames w) ≤ begun w
frames-begun (idle h r) = omega arith
frames-begun (copying h r f j) = omega arith
frames-begun (stamped h r f) = omega (arith, length-append h (f ∷ []))

-- `resume_at` as it is loaded.
resume_at-edge :
    (r : Region) (n w : ℕ) → r.slot_count ≡ n → r.write_index ≡ w → n ≤ w → resume_at r ≡ w - n
unfolding resume_at live_edge
resume_at-edge r n w e q h = ground arith

module _ (frame_cap k : ℕ) where
  now-header :
      (w : Writer)
      → IsWriter frame_cap k w
      → ((now (2 ^ k - 1) w).slot_count ≡ 2 ^ k)
        × ((now (2 ^ k - 1) w).write_index ≡ length (finished w))
        × (begun w ≤ length (finished w) + 1)
  unfolding now
  now-header (idle h r) v = (v.count, v.index, omega arith)
  now-header (copying h r f j) v = (v.0.count, v.0.index, omega arith)
  now-header (stamped h r f) v = (v.0.count, v.0.index, omega arith)

module _ (frame_cap k : ℕ) (l : Loads (2 ^ k - 1) frame_cap) (i : ℕ) (out : List ℕ) where
  abbrev sight : Snapshots
  sight = snapshots (2 ^ k - 1) frame_cap l

  abbrev answer : FrameStatus × List ℕ
  answer = read sight (2 ^ k - 1) i out

  abbrev Answer : FrameStatus × List ℕ → Type 0
  Answer = Answered (2 ^ k) l.at_seq l.at_recheck l.at_edge i out

  resumes :
      IsWriter frame_cap k l.at_edge
      → i + 2 ^ k < begun l.at_edge
      → resume_at (now (2 ^ k - 1) l.at_edge) ≡ length (finished l.at_edge) - 2 ^ k
  resumes v late =
      let (count, index, most) = now-header frame_cap k l.at_edge v in
      resume_at-edge (now (2 ^ k - 1) l.at_edge) _ _ count index (omega (arith, most))

  -- A slot with the expected number has not been taken by a later frame.
  rechecked :
      IsWriter frame_cap k l.at_recheck
      → begun l.at_recheck < 2 ^ 64
      → i + 1 < 2 ^ 64
      → (slot_at (now (2 ^ k - 1) l.at_recheck) (2 ^ k - 1) i).seq ≡ u64 (i + 1)
      → length (frames l.at_recheck) ≤ i + 2 ^ k
  rechecked v small wide e =
      let s : Seen (2 ^ k) (i % 2 ^ k) l.at_recheck
          (slot_at (now (2 ^ k - 1) l.at_recheck) (2 ^ k - 1) i) =
        rw (bit_and-mask k i)
          (now-Seen frame_cap k l.at_recheck (i % 2 ^ k) v small (mod-lt i (pow2-pos k))) in
      elim s.holds [
        | never w z ↦ absurd (omega (arith, s.seq, z, e))
        | frame j f lt win pm sq gi ln by ↦ omega (arith, win, sq, s.seq, e)
      ]

  -- The slot holds the frame that is asked for, at the first load.
  published :
      (f : List ℕ)
      → IsWriter frame_cap k l.at_seq
      → IsWriter frame_cap k l.at_edge
      → begun l.at_edge < 2 ^ 64
      → ((slot_at (now (2 ^ k - 1) l.at_recheck) (2 ^ k - 1) i).seq ≡ u64 (i + 1)
          → length (frames l.at_recheck) ≤ i + 2 ^ k)
      → i < length (frames l.at_seq)
      → get_elem? (frames l.at_seq) i ≡ some f
      → let s = slot_at (now (2 ^ k - 1) l.at_seq) (2 ^ k - 1) i in
        s.seq ≡ u64 (i + 1)
        → (begun l.at_edge ≤ i + 2 ^ k → (s.frame_len ≡ length f) × (take (length f) s.frame ≡ f))
        → Answer answer
  published f v v' small taken lt held sq whole = elim (lt-or-le (i + 2 ^ k) (begun l.at_edge)) [
    | inl late ↦
        elim (ℕ_discrete (slot_at (now (2 ^ k - 1) l.at_recheck) (2 ^ k - 1) i).seq (u64 (i + 1))) [
          | yes same ↦ rw (read-at sight (2 ^ k - 1) i out sq same) (taken same, inl late)
          | no changed ↦
              rw (read-changed sight (2 ^ k - 1) i out sq changed) (late, resumes v' late)
        ]
    | inr quiet ↦
        let first = slot_at (now (2 ^ k - 1) l.at_seq) (2 ^ k - 1) i in
        let (ln, by) = whole quiet in
        let len = ap (λ s. s.frame_len) (same_len frame_cap k l i v small lt quiet) ∙ ln in
        let kept = ap (λ s. s.seq) (same_recheck frame_cap k l i v small lt quiet) ∙ sq in
        rw (read-at sight (2 ^ k - 1) i out sq kept) (
          taken kept,
          inr (
            f,
            lt,
            held,
            len,
            ap (write_at out 0) (
                ap (copy_frame sight.at_copy (2 ^ k - 1) i 0) len
                ∙ copy_frame-same sight.at_copy (now (2 ^ k - 1) l.at_seq) (2 ^ k - 1) i 0
                    (length f) (same_copy frame_cap k l i v small lt quiet)
                ∙ copy_frame-still (now (2 ^ k - 1) l.at_seq) (2 ^ k - 1) i (length f)
                    (omega (arith, length-take-le (length f) first.frame, ap length by))
                ∙ by),
          ),
        )
  ]

  abbrev FirstSeen : Type 0
  FirstSeen = Seen (2 ^ k) (i % 2 ^ k) l.at_seq (slot_at (now (2 ^ k - 1) l.at_seq) (2 ^ k - 1) i)

  answered :
      IsWriter frame_cap k l.at_seq
      → IsWriter frame_cap k l.at_edge
      → begun l.at_edge < 2 ^ 64
      → i + 1 < 2 ^ 64
      → ((slot_at (now (2 ^ k - 1) l.at_recheck) (2 ^ k - 1) i).seq ≡ u64 (i + 1)
          → length (frames l.at_recheck) ≤ i + 2 ^ k)
      → begun l.at_seq ≤ begun l.at_edge
      → (s : FirstSeen) → Holds (2 ^ k) (i % 2 ^ k) (frames l.at_seq) s.base
      → Answer answer
  answered v v' small wide checked le s (never w z) =
      rw (read-before sight (2 ^ k - 1) i out (omega (arith, s.seq)))
        (omega (arith, mod-le i (2 ^ k)), refl)
  answered v v' small wide checked le s (frame j f lt win pm sq gi ln by) = elim (ℕ_discrete j i) [
    | yes same ↦
        published f v v' small checked (omega arith)
          (ap (get_elem? (frames l.at_seq)) (sym same) ∙ gi) (omega (arith, s.seq))
          λ quiet. elim s.same [
            | inl e ↦ (ap (λ t. t.frame_len) e ∙ ln, ap (λ t. take (length f) t.frame) e ∙ by)
            | inr (here, busy) ↦ absurd (
                omega (
                  arith,
                  busy,
                  mod-gap (2 ^ k) i (length (frames l.at_seq)) (pow2-pos k) (sym here)
                      (omega arith),
                ))
          ]
    | no other ↦ elim (lt-or-le j i) [
      | inl below ↦
          rw (read-before sight (2 ^ k - 1) i out (omega (arith, s.seq)))
            (omega (arith, mod-gap (2 ^ k) j i (pow2-pos k) pm below), refl)
      | inr above ↦
          let gap = mod-gap (2 ^ k) i j (pow2-pos k) (sym pm) (omega arith) in
          let late : i + 2 ^ k < begun l.at_edge = omega (arith, gap, frames-begun l.at_seq) in
          rw (read-past sight (2 ^ k - 1) i out (omega (arith, s.seq, frames-begun l.at_seq)))
            (late, resumes v' late)
    ]
  ]

  -- A read at a position below 2^64 - 1, between whose loads the producer of a well-formed ring makes
  -- any stores of fewer than 2^64 publications: it answers empty only if that frame was not published
  -- at its first load; it answers lapped only if the producer has begun to overwrite the frame, and
  -- then with the oldest position behind the edge that it loads; and it answers ok only if no later
  -- frame had taken the slot at its second load of `seq`, and then with exactly the frame published
  -- at that position, unless the producer has begun to overwrite it.
  pub read-Answered :
      IsWriter frame_cap k l.at_seq → begun l.at_edge < 2 ^ 64 → i + 1 < 2 ^ 64 → Answer answer
  read-Answered v small wide =
      let le = (begun-edge frame_cap k l).0 in
      let s : FirstSeen =
        rw (bit_and-mask k i)
          (now-Seen frame_cap k l.at_seq (i % 2 ^ k) v (omega arith) (mod-lt i (pow2-pos k))) in
      answered v
        (Reach-IsWriter frame_cap k
          (Reach-trans (Reach-trans (Reach-trans l.to_len (l.to_copy 0)) (l.to_recheck 0))
            l.to_edge)
          small v)
        small wide
        (rechecked
          (Reach-IsWriter frame_cap k
            (Reach-trans (Reach-trans l.to_len (l.to_copy 0)) (l.to_recheck 0))
            (omega (arith, (begun-edge frame_cap k l).3)) v)
          (omega (arith, (begun-edge frame_cap k l).3)) wide)
        le s s.holds
