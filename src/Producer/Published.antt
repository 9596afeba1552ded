-- ===== src/Producer/Published.antt =====
-- The frames that the producer publishes: complete, and numbered from 1 without a gap.
use mathlib.Core.Path.{ap₂}
use low_latency_data_transfe.Base.{
  ℕ, suc, ◌+◌, ◌-◌, ◌^◌, ◌<◌, ◌≤◌, ◌≡◌, refl, sym, ap, ◌∙◌, subst, List, [], ◌∷◌, ◌++◌, some, false,
  not, ◌&&◌, ltb, ◌==◌, u64, arith, length, length-append, append_assoc, append-nil, write_at,
  write_at_front, length-write_at, drop, take, take-append-drop, length-take, u32, Bool-cases,
  Option-cases, inl, inr,
}
use low_latency_data_transfe.Message.{Profile, sizeof_header}
use low_latency_data_transfe.Ring.{Region, publish}
use low_latency_data_transfe.Ring.Writer.{idle, Reach, Reach-trans, publish-Reach}
use low_latency_data_transfe.Ring.Window.{IsRing}
use low_latency_data_transfe.Ring.Publish.{publish-IsRing, publish-take}
use low_latency_data_transfe.Receiver.Writer.{IsFrame}
use low_latency_data_transfe.Producer.{
  CompactTradeState, Stamps, Builders, IsBuilder, IsBuilders, Built, IsBuilt, Kind, choose,
  build_kind, build, ProducerState, Round, send, produce, run_producer, wait,
}

build_kind-IsBuilder :
    (p : Profile) (b : Builders) (kind : Kind) → IsBuilders p b → IsBuilder p (build_kind b kind)
unfolding build_kind
build_kind-IsBuilder p b Kind.trade law = law.build_trade
build_kind-IsBuilder p b Kind.bbo law = law.build_bbo
build_kind-IsBuilder p b Kind.book law = law.build_book
build_kind-IsBuilder p b Kind.mixed law = law.build_book

pub build-IsBuilder :
    (p : Profile) (b : Builders) (kind : Kind) → IsBuilders p b → IsBuilder p (build b kind)
unfolding build
build-IsBuilder p b kind law t s seq buf h room =
    build_kind-IsBuilder p b (choose kind seq) law t s seq buf h room

-- A writer that puts `bytes` at the front of a buffer and returns a size that covers them.
take-write_at :
    (buf bytes : List ℕ) (n : ℕ)
    → length bytes + n ≤ length buf
    → take (length bytes + n) (write_at buf 0 bytes) ≡ bytes ++ take n (drop (length bytes) buf)
take-write_at buf bytes n fits =
    ap (take (length bytes + n)) (write_at_front buf bytes (omega arith))
    ∙ past bytes (drop (length bytes) buf)
  where
    past : (xs ys : List ℕ) → take (length xs + n) (xs ++ ys) ≡ xs ++ take n ys
    past [] ys = ap (λ m. take m ys) {x = 0 + n} {y = n} (omega arith)
    past (x ∷ xs) ys =
        ap (λ m. take m (x ∷ (xs ++ ys))) {x = suc (length xs) + n} {y = suc (length xs + n)}
          (omega arith)
        ∙ ap (◌∷◌ x) (past xs ys)

-- A builder is right if what it writes, with whatever follows it, is a frame of the size it returns.
pub written-IsBuilt :
    (p : Profile) (t : CompactTradeState) (seq len : ℕ) (buf bytes : List ℕ)
    → length buf ≡ p.max_frame
    → length bytes ≤ len
    → sizeof_header ≤ len
    → len ≤ p.max_frame
    → ((rest : List ℕ) → u32 (p.frame_size (bytes ++ rest)) ≡ len)
    → ((rest : List ℕ) → p.seq_id (bytes ++ rest) ≡ seq)
    → IsBuilt p seq p.max_frame
        (record { trade_state = t; buffer = write_at buf 0 bytes; len = len })
written-IsBuilt p t seq len buf bytes room small header fits size number = record {
  size = length-write_at buf 0 bytes ∙ room;
  len = long;
  frame = record {
    header = omega (arith, long);
    size = ap (λ f. u32 (p.frame_size f)) shape ∙ size _ ∙ sym long;
    fits = omega (arith, long);
  };
  seq_id = ap p.seq_id shape ∙ number _;
}
  where
    long : length (take len (write_at buf 0 bytes)) ≡ len
    long = length-take len (write_at buf 0 bytes) (omega (arith, length-write_at buf 0 bytes))

    shape :
        take len (write_at buf 0 bytes)
        ≡ bytes ++ take (len - length bytes) (drop (length bytes) buf)
    shape =
        ap (λ m. take m (write_at buf 0 bytes)) {x = len} {y = length bytes + (len - length bytes)}
          (omega arith)
        ∙ take-write_at buf bytes (len - length bytes) (omega arith)

-- Complete frames whose numbers follow `i`.
abbrev pub Numbered : Profile → ℕ → List (List ℕ) → Type 0
Numbered p i [] = Unit {0}
Numbered p i (f ∷ fs) = IsFrame p f × (p.seq_id f ≡ i + 1) × Numbered p (i + 1) fs

Numbered-append :
    (p : Profile) (i : ℕ) (fs : List (List ℕ)) (f : List ℕ)
    → Numbered p i fs
    → IsFrame p f
    → p.seq_id f ≡ i + length fs + 1
    → Numbered p i (fs ++ f ∷ [])
Numbered-append p i [] f all whole seq = (whole, omega arith, tt)
Numbered-append p i (g ∷ gs) f all whole seq =
    (all.0, all.1, Numbered-append p (i + 1) gs f all.2 whole (omega arith))

-- The producer has published `history`, and nothing else.
pub record IsProduced (p : Profile) (k : ℕ) (history : List (List ℕ)) (st : ProducerState)
    : Type 0 where
  pub buffer : length st.frame ≡ p.max_frame
  pub seq : st.seq ≡ length history
  pub ring : IsRing p.max_frame k history st.region
  pub numbered : Numbered p 0 history

module _ (p : Profile) (b : Builders) (law : IsBuilders p b) (kind : Kind) (k interval_ns : ℕ) where
  -- A frame more, and the stores that have published it.
  abbrev Publishes : List (List ℕ) → ProducerState → List ℕ → ProducerState → Type 0
  Publishes history st f st' =
      IsProduced p k (history ++ f ∷ []) st'
      × Reach (2 ^ k - 1) p.max_frame (idle history st.region) (idle (history ++ f ∷ []) st'.region)

  -- One message more.
  send-Publishes :
      (history : List (List ℕ)) (st : ProducerState) (s : Stamps)
      → IsProduced p k history st
      → length history + 1 < 2 ^ 64
      → let st' = send b kind (2 ^ k - 1) interval_ns st s in
        let built = build b kind st.trade_state s (u64 (st.seq + 1)) st.frame in
        Publishes history st (take built.len built.buffer) st'
  unfolding send
  send-Publishes history st s v small = (
    record {
      buffer = good.size;
      seq = omega (arith, v.seq, length-append history (f ∷ []));
      ring =
          subst (IsRing p.max_frame k (history ++ f ∷ [])) (sym published)
            (publish-IsRing p.max_frame k history st.region f good.frame.fits small v.ring);
      numbered =
          Numbered-append p 0 history f v.numbered good.frame (good.seq_id ∙ omega (arith, v.seq));
    },
    subst (λ r. Reach (2 ^ k - 1) p.max_frame (idle history st.region) (idle (history ++ f ∷ []) r))
        (sym published) (publish-Reach (2 ^ k - 1) p.max_frame history st.region f good.frame.fits),
  )
    where
      built : Built
      built = build b kind st.trade_state s (u64 (st.seq + 1)) st.frame

      good : IsBuilt p (u64 (st.seq + 1)) p.max_frame built
      good =
          build-IsBuilder p b kind law st.trade_state s (u64 (st.seq + 1)) st.frame (omega arith)
            v.buffer

      f : List ℕ
      f = take built.len built.buffer

      published :
          publish st.region (2 ^ k - 1) built.buffer built.len
          ≡ publish st.region (2 ^ k - 1) f (length f)
      published = sym (
          sym (publish-take st.region (2 ^ k - 1) f (drop built.len built.buffer))
          ∙ ap₂ (publish st.region (2 ^ k - 1)) (take-append-drop built.len built.buffer) good.len)

  produce-Publishes :
      (history : List (List ℕ)) (st st' : ProducerState) (round : Round)
      → IsProduced p k history st
      → length history + 1 < 2 ^ 64
      → produce b kind (2 ^ k - 1) interval_ns st round ≡ some st'
      → (f : List ℕ) × Publishes history st f st'
  unfolding produce
  produce-Publishes history st st' round v small e = elim (Bool-cases (interval_ns == 0)) [
    | inl free ↦ (
      _,
      subst (Publishes history st _) (ground (arith, free))
          (send-Publishes history st round.stamps v small),
    )
    | inr paced ↦ elim (Bool-cases (wait st.next_send round.readings)) [
      | inl due ↦ (
        _,
        subst (Publishes history st _) (ground (arith, paced, due)) (
            send-Publishes history (record st { next_send = u64 (st.next_send + interval_ns) })
              round.stamps
              (record { buffer = v.buffer; seq = v.seq; ring = v.ring; numbered = v.numbered })
              small),
      )
      | inr waits ↦ absurd (ground (arith, paced, waits))
    ]
  ]

  produce-free :
      (st : ProducerState) (round : Round)
      → interval_ns ≡ 0
      → produce b kind (2 ^ k - 1) interval_ns st round
        ≡ some (send b kind (2 ^ k - 1) interval_ns st round.stamps)
  unfolding produce
  produce-free st round free = ground arith

  -- What a run leaves: further frames, one for each round that was not cut off by the limit or left
  -- waiting.
  pub record Runs (count : ℕ) (history : List (List ℕ)) (first : Region) (rounds : List Round)
      (st' : ProducerState) : Type 0 where
    pub frames : List (List ℕ)
    pub produced : IsProduced p k (history ++ frames) st'
    pub stepped :
        Reach (2 ^ k - 1) p.max_frame (idle history first) (idle (history ++ frames) st'.region)
    pub most : length frames ≤ length rounds
    pub limited : 0 < count → length history ≤ count → length history + length frames ≤ count
    pub unpaced : interval_ns ≡ 0 → count ≡ 0 → length frames ≡ length rounds

  stopped :
      (count : ℕ) (history : List (List ℕ)) (rounds : List Round) (st : ProducerState)
      → IsProduced p k history st
      → (interval_ns ≡ 0 → count ≡ 0 → length rounds ≡ 0)
      → Runs count history st.region rounds st
  stopped count history rounds st v never = record {
    frames = [];
    produced = subst (λ h. IsProduced p k h st) (sym (append-nil history)) v;
    stepped =
        subst (λ h. Reach (2 ^ k - 1) p.max_frame (idle history st.region) (idle h st.region))
          (sym (append-nil history)) Reach.here;
    most = omega arith;
    limited = λ pos le. omega arith;
    unpaced = λ free endless. sym (never free endless);
  }

  -- A producer whose ring stands for the frames numbered 1, 2, … that it has published goes on so
  -- over any rounds, with fewer than 2^64 frames: those that it adds are complete, carry the next
  -- numbers, stay within the limit if there is one, and are one for each round if there is neither
  -- a limit nor a rate; and the steps of publications lead from the ring at the start to the ring
  -- at the end. Builders that write complete frames of their number are given.
  pub run_producer-IsProduced :
      (count : ℕ) (history : List (List ℕ)) (st : ProducerState) (rounds : List Round)
      → IsProduced p k history st
      → length history + length rounds < 2 ^ 64
      → Runs count history st.region rounds
          (run_producer b kind (2 ^ k - 1) interval_ns count st rounds)
  unfolding run_producer
  run_producer-IsProduced count history st [] v small = stopped count history [] st v (λ _ _. refl)
  run_producer-IsProduced count history st (round ∷ rounds) v small =
      elim (Bool-cases (not (count == 0) && not (ltb st.seq count))) [
        | inl full ↦ simp full (
            stopped count history (round ∷ rounds) st v
              λ free endless. absurd (ground (arith, full)))
        | inr going ↦
            simp going (elim (Option-cases (produce b kind (2 ^ k - 1) interval_ns st round)) [
              | inl waits ↦ simp waits (
                  stopped count history (round ∷ rounds) st v
                    λ free endless. absurd (ground (arith, waits, produce-free st round free)))
              | inr (st', e) ↦ simp e (
                  let (f, (v', step)) = produce-Publishes history st st' round v (omega arith) e in
                  further f st' going step (
                    run_producer-IsProduced count (history ++ f ∷ []) st' rounds v'
                      (omega (arith, length-append history (f ∷ [])))))
            ])
      ]
    where
      further :
          (f : List ℕ) (st' : ProducerState)
          → (not (count == 0) && not (ltb st.seq count)) ≡ false
          → Reach
              (2 ^ k - 1)
              p.max_frame
              (idle history st.region)
              (idle (history ++ f ∷ []) st'.region)
          → Runs count
              (history ++ f ∷ [])
              st'.region
              rounds
              (run_producer b kind (2 ^ k - 1) interval_ns count st' rounds)
          → Runs count history st.region
              (round ∷ rounds)
              (run_producer b kind (2 ^ k - 1) interval_ns count st' rounds)
      further f st' going step rest = record {
        frames = f ∷ rest.frames;
        produced =
            subst
              (λ h. IsProduced p k h (run_producer b kind (2 ^ k - 1) interval_ns count st' rounds))
              (append_assoc history (f ∷ []) rest.frames) rest.produced;
        stepped =
            subst
              (λ h.
                Reach (2 ^ k - 1) p.max_frame (idle history st.region)
                  (idle h (run_producer b kind (2 ^ k - 1) interval_ns count st' rounds).region))
              (append_assoc history (f ∷ []) rest.frames) (Reach-trans step rest.stepped);
        most = omega (arith, rest.most);
        limited = λ pos le.
            omega (arith, length-append history (f ∷ []), rest.limited pos (below pos le));
        unpaced = λ free endless. omega (arith, rest.unpaced free endless);
      }
        where
          below : 0 < count → length history ≤ count → length (history ++ f ∷ []) ≤ count
          below pos le = ground (arith, going, v.seq, length-append history (f ∷ []))
