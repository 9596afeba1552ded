-- ===== src/Metrics.antt =====
-- harness/include/metrics.h: the accumulator of the consumer, and its report. The vector of
-- samples is the list of those stored, with the capacity beside it. Floating-point arithmetic is a
-- parameter.
pub mod Accumulated
pub mod Sorted
pub mod Percentiles
pub mod Reported
pub mod Csv
use low_latency_data_transfe.Base.{
  ℕ, ◌+◌, ◌-◌, List, [], ◌∷◌, ◌++◌, Bool, ltb, leb, ◌==◌, if◌then◌else◌, u64, sub64, length, get_or,
}

pub record Sample : Type 0 where
  pub seq_id : ℕ
  pub latency_ns : ℕ

pub record Accumulator : Type 0 where
  pub capacity : ℕ
  pub samples : List Sample
  pub overflow : ℕ
  pub received : ℕ
  pub first_seq : ℕ
  pub last_seq : ℕ

abbrev pub accumulator : ℕ → Accumulator
accumulator capacity = record {
  capacity = capacity;
  samples = [];
  overflow = 0;
  received = 0;
  first_seq = 0;
  last_seq = 0;
}

-- The first part of `Accumulator::record`, up to `++received_`.
unfoldable pub count_sample : Accumulator → ℕ → Accumulator
count_sample a seq_id = record a {
  first_seq =
      if a.received == 0 then seq_id else if ltb seq_id a.first_seq then seq_id else a.first_seq;
  last_seq =
      if a.received == 0 then seq_id else if ltb a.last_seq seq_id then seq_id else a.last_seq;
  received = u64 (a.received + 1);
}

-- `Accumulator::record`
unfoldable pub record_sample : Accumulator → Sample → Accumulator
unfolding count_sample
record_sample a s =
    let a' = count_sample a s.seq_id in
    if length a'.samples == a'.capacity
    then record a' { overflow = u64 (a'.overflow + 1) }
    else record a' { samples = a'.samples ++ s ∷ [] }

pub record Report : Type 0 where
  pub received : ℕ
  pub expected : ℕ
  pub dropped : ℕ
  pub drop_rate : ℕ
  pub overflow : ℕ
  pub lat_min : ℕ
  pub lat_max : ℕ
  pub lat_mean : ℕ
  pub p01 : ℕ
  pub p50 : ℕ
  pub p99 : ℕ
  pub p999 : ℕ
  pub p9999 : ℕ

-- Arithmetic on the bit patterns of `double`, and of `long double` for the sum: the literal that is
-- a quotient of numbers, conversions, operations and the test `<`.
pub record Floating : Type 0 where
  pub literal : ℕ → ℕ → ℕ
  pub of_u64 : ℕ → ℕ
  pub to_u64 : ℕ → ℕ
  pub mul : ℕ → ℕ → ℕ
  pub div : ℕ → ℕ → ℕ
  pub less : ℕ → ℕ → Bool
  pub long_of_u64 : ℕ → ℕ
  pub long_add : ℕ → ℕ → ℕ
  pub long_div : ℕ → ℕ → ℕ
  pub of_long : ℕ → ℕ

-- `std::sort`
unfoldable pub insert : ℕ → List ℕ → List ℕ
insert x [] = x ∷ []
insert x (y ∷ ys) = let rest = insert x ys in if leb x y then x ∷ (y ∷ ys) else y ∷ rest

unfoldable pub sort : List ℕ → List ℕ
unfolding insert
sort [] = []
sort (x ∷ xs) = insert x (sort xs)

abbrev pub latencies : List Sample → List ℕ
latencies [] = []
latencies (s ∷ ss) = s.latency_ns ∷ latencies ss

unfoldable pub round_up : Bool → ℕ → ℕ
round_up less rank = if less then u64 (rank + 1) else rank

unfoldable pub clamp : ℕ → ℕ → ℕ
clamp n rank = let least = if ltb rank 1 then 1 else rank in if ltb n least then n else least

module _ (d : Floating) where
  -- The product of `percentile`, for `p` a number of ten-thousandths.
  abbrev pub exact_rank : ℕ → ℕ → ℕ
  exact_rank p n = d.mul (d.literal p 10000) (d.of_u64 n)

  -- The rank of `percentile`, from 1.
  unfoldable pub rank_of : ℕ → ℕ → ℕ
  unfolding round_up clamp
  rank_of p n =
      let rank = d.to_u64 (exact_rank p n) in
      clamp n (round_up (d.less (d.of_u64 rank) (exact_rank p n)) rank)

  -- `Accumulator::percentile`
  unfoldable pub percentile : List ℕ → ℕ → ℕ
  unfolding rank_of
  percentile sorted p =
      if length sorted == 0 then 0 else get_or sorted (rank_of p (length sorted) - 1) 0

  abbrev pub sum : ℕ → List ℕ → ℕ
  sum acc [] = acc
  sum acc (x ∷ xs) = sum (d.long_add acc (d.long_of_u64 x)) xs

  -- A report without statistics of latencies.
  unfoldable pub count_report : Accumulator → Report
  count_report a =
      let expected = u64 (sub64 a.last_seq a.first_seq + 1) in
      let dropped = if ltb a.received expected then expected - a.received else 0 in
      record {
        received = a.received;
        expected = if a.received == 0 then 0 else expected;
        dropped = if a.received == 0 then 0 else dropped;
        drop_rate =
            if a.received == 0
            then d.literal 0 1
            else if expected == 0
            then d.literal 0 1
            else d.div (d.of_u64 dropped) (d.of_u64 expected);
        overflow = a.overflow;
        lat_min = 0;
        lat_max = 0;
        lat_mean = d.literal 0 1;
        p01 = 0;
        p50 = 0;
        p99 = 0;
        p999 = 0;
        p9999 = 0;
      }

  -- The rest of `report`, on the samples stored.
  unfoldable pub statistics : Report → List Sample → Report
  unfolding sort percentile
  statistics counts samples =
      let stored = latencies samples in
      let sorted = sort stored in
      record counts {
        lat_min = get_or sorted 0 0;
        lat_max = get_or sorted (length sorted - 1) 0;
        lat_mean =
            d.of_long (d.long_div (sum (d.long_of_u64 0) stored) (d.long_of_u64 (length samples)));
        p01 = percentile sorted 100;
        p50 = percentile sorted 5000;
        p99 = percentile sorted 9900;
        p999 = percentile sorted 9990;
        p9999 = percentile sorted 9999;
      }

  -- `Accumulator::report`
  unfoldable pub report : Accumulator → Report
  unfolding count_report statistics
  report a =
      if a.received == 0
      then count_report a
      else if length a.samples == 0
      then count_report a
      else statistics (count_report a) a.samples
