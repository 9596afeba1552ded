-- ===== src/Metrics/Percentiles.antt =====
-- The percentiles of the latencies stored, of `percentile` in harness/include/metrics.h.
use low_latency_data_transfe.Base.{
  ℕ, ◌-◌, ◌^◌, ◌≤◌, ◌<◌, ◌≡◌, sym, subst, List, Bool, true, false, arith, length, inl, inr,
  Bool-cases, get_or, refl, lt-or-le, ◌==◌,
}
use low_latency_data_transfe.Metrics.{
  Sample, Report, Floating, sort, latencies, exact_rank, round_up, clamp, rank_of, percentile,
  statistics,
}
use low_latency_data_transfe.Metrics.Sorted.{
  In, length-sort, In-sort, sort-In, In-get_or, In-position, sort-get_or,
}

-- What is used of the arithmetic: a share of a number of up to 2^53 is not rounded above the number,
-- and a larger share is neither truncated to less, nor compared as less with a number.
pub record IsFloating (d : Floating) : Type 0 where
  pub share : (p n : ℕ) → p ≤ 10000 → n < 2 ^ 53 → d.to_u64 (exact_rank d p n) ≤ n
  pub truncated : (p q n : ℕ) → p ≤ q → d.to_u64 (exact_rank d p n) ≤ d.to_u64 (exact_rank d q n)
  pub compared :
      (p q m n : ℕ)
      → p ≤ q
      → d.less (d.of_u64 m) (exact_rank d p n) ≡ true
      → d.less (d.of_u64 m) (exact_rank d q n) ≡ true

-- Statistics of a list of latencies: its least and greatest, and members that stand between them
-- in the order of their percentages.
pub record IsStatistics (xs : List ℕ) (r : Report) : Type 0 where
  pub lat_min : In r.lat_min xs
  pub lat_max : In r.lat_max xs
  pub within : (x : ℕ) → In x xs → (r.lat_min ≤ x) × (x ≤ r.lat_max)
  pub percentiles : In r.p01 xs × In r.p50 xs × In r.p99 xs × In r.p999 xs × In r.p9999 xs
  pub ordered :
      (r.lat_min ≤ r.p01)
      × (r.p01 ≤ r.p50)
      × (r.p50 ≤ r.p99)
      × (r.p99 ≤ r.p999)
      × (r.p999 ≤ r.p9999)
      × (r.p9999 ≤ r.lat_max)

clamp-le : (n rank : ℕ) → 0 < n → (0 < clamp n rank) × (clamp n rank ≤ n)
unfolding clamp
clamp-le n rank pos = (ground arith, ground arith)

clamp_mono : (n rank rank' : ℕ) → rank ≤ rank' → clamp n rank ≤ clamp n rank'
unfolding clamp
clamp_mono n rank rank' le = ground arith

round_up_mono :
    (less less' : Bool) (rank rank' : ℕ)
    → rank ≤ rank'
    → rank' < 2 ^ 53
    → (rank ≡ rank' → less ≡ true → less' ≡ true)
    → round_up less rank ≤ round_up less' rank'
unfolding round_up
round_up_mono false false rank rank' le small carry = le
round_up_mono false true rank rank' le small carry = omega arith
round_up_mono true true rank rank' le small carry = omega arith
round_up_mono true false rank rank' le small carry = elim (lt-or-le rank rank') [
  | inl lt ↦ omega arith
  | inr ge ↦ absurd (ground (arith, carry (omega arith) refl))
]

module _ (d : Floating) (law : IsFloating d) where
  rank_of_mono : (p q n : ℕ) → p ≤ q → q ≤ 10000 → n < 2 ^ 53 → rank_of d p n ≤ rank_of d q n
  unfolding rank_of
  rank_of_mono p q n le most small = clamp_mono n _ _ (
      round_up_mono _ _ _ _ (law.truncated p q n le) (omega (arith, law.share q n most small))
        λ same less.
          subst (λ m. d.less (d.of_u64 m) (exact_rank d q n) ≡ true) same
            (law.compared p q _ n le less))

module _ (d : Floating) (xs : List ℕ) (pos : 0 < length xs) where
  rank_of-le : (p : ℕ) → (0 < rank_of d p (length xs)) × (rank_of d p (length xs) ≤ length xs)
  unfolding rank_of
  rank_of-le p =
      let rank = d.to_u64 (exact_rank d p (length xs)) in
      clamp-le (length xs) (round_up (d.less (d.of_u64 rank) (exact_rank d p (length xs))) rank) pos

  percentile-get_or :
      (p : ℕ) → percentile d (sort xs) p ≡ get_or (sort xs) (rank_of d p (length xs) - 1) 0
  unfolding percentile
  percentile-get_or p = rw (length-sort xs) (elim (Bool-cases (length xs == 0)) [
    | inl none ↦ absurd (ground (arith, none))
    | inr some_latency ↦ simp some_latency refl
  ])

  sort-In_at : (i : ℕ) → i < length xs → In (get_or (sort xs) i 0) xs
  sort-In_at i h = sort-In _ xs (In-get_or (sort xs) i (omega (arith, length-sort xs)))

  percentile-In : (p : ℕ) → In (percentile d (sort xs) p) xs
  percentile-In p =
      subst (λ n. In n xs) (sym (percentile-get_or p))
        (sort-In_at (rank_of d p (length xs) - 1)
          (omega (arith, (rank_of-le p).0, (rank_of-le p).1)))

  within : (x : ℕ) → In x xs → (get_or (sort xs) 0 0 ≤ x) × (x ≤ get_or (sort xs) (length xs - 1) 0)
  within x h =
      let (i, lt, e) = In-position x (sort xs) (In-sort x xs h) in
      let long = length-sort xs in
      (
        omega (arith, e, sort-get_or xs 0 i (omega arith) (omega (arith, lt, long))),
        omega (arith, e, sort-get_or xs i (length xs - 1) (omega (arith, lt, long)) (omega arith)),
      )

  percentile-le : (p : ℕ) → percentile d (sort xs) p ≤ get_or (sort xs) (length (sort xs) - 1) 0
  percentile-le p = rw (length-sort xs) ((within _ (percentile-In p)).1)

  percentile_mono :
      IsFloating d
      → length xs < 2 ^ 53
      → (p q : ℕ) → p ≤ q
      → q ≤ 10000
      → percentile d (sort xs) p ≤ percentile d (sort xs) q
  percentile_mono law small p q le most = omega (
    arith,
    percentile-get_or p,
    percentile-get_or q,
    sort-get_or xs (rank_of d p (length xs) - 1) (rank_of d q (length xs) - 1)
        (omega (arith, rank_of_mono d law p q (length xs) le most small))
        (omega (arith, (rank_of-le q).0, (rank_of-le q).1)),
  )

  pub statistics-IsStatistics :
      IsFloating d
      → length xs < 2 ^ 53
      → (counts : Report) (samples : List Sample) → latencies samples ≡ xs
      → IsStatistics xs (statistics d counts samples)
  unfolding statistics
  statistics-IsStatistics law small counts samples e = rw e (record {
    lat_min = sort-In_at 0 pos;
    lat_max = rw (length-sort xs) (sort-In_at (length xs - 1) (omega arith));
    within = rw (length-sort xs) within;
    percentiles = (
      percentile-In 100,
      percentile-In 5000,
      percentile-In 9900,
      percentile-In 9990,
      percentile-In 9999,
    );
    ordered = (
      (within _ (percentile-In 100)).0,
      percentile_mono law small 100 5000 (omega arith) (omega arith),
      percentile_mono law small 5000 9900 (omega arith) (omega arith),
      percentile_mono law small 9900 9990 (omega arith) (omega arith),
      percentile_mono law small 9990 9999 (omega arith) (omega arith),
      percentile-le 9999,
    );
  })
