-- ===== src/Tests/Consumers.antt =====
-- The consumer at the ring with frames 7 and 8, with room for one sample.
use native.Mathlib.Nat.{mul-le-mul_right}
use low_latency_data_transfe.Base.{
  ℕ, ◌+◌, ◌*◌, ◌/◌, ◌≤◌, ◌≡◌, ltb, refl, [], ◌∷◌, arith, replicate, true, false, some, zero, suc,
  List,
}
use low_latency_data_transfe.Metrics.{
  Sample, Accumulator, accumulator, record_sample, count_sample, report, Floating, percentile, sort,
}
use low_latency_data_transfe.Metrics.Accumulated.{
  IsAccumulated, accumulator-IsAccumulated, record_sample-IsAccumulated,
}
use low_latency_data_transfe.Config.{Str}
use low_latency_data_transfe.Metrics.Csv.{dump_csv, read_csv, dump_csv-read_csv}
use low_latency_data_transfe.Metrics.Percentiles.{IsFloating}
use low_latency_data_transfe.Metrics.Reported.{IsReport, report-IsReport}
use low_latency_data_transfe.Consumer.{ConsumerState, Round}
use low_latency_data_transfe.Ring.{Region, still}
use low_latency_data_transfe.Ring.Writer.{Reach}
use low_latency_data_transfe.Ring.Loads.{Loads}
use low_latency_data_transfe.Tests.Rings.{storing}

abbrev sample : ℕ → Sample
sample n = record { seq_id = n; latency_ns = 100 }

abbrev one : Accumulator
one = record_sample (accumulator 1) (sample 7)

one-IsAccumulated : IsAccumulated 1 (sample 7 ∷ []) one
one-IsAccumulated =
    record_sample-IsAccumulated 1 [] (accumulator 1) (sample 7) (accumulator-IsAccumulated 1)
      (omega arith)

two-IsAccumulated : IsAccumulated 1 (sample 7 ∷ sample 9 ∷ []) (record_sample one (sample 9))
two-IsAccumulated =
    record_sample-IsAccumulated 1 (sample 7 ∷ []) one (sample 9) one-IsAccumulated (omega arith)

abbrev two : Accumulator
two = record_sample one (sample 9)

-- The file has the sample that was stored.
dump_csv-read_csv_example :
    (text : Str) × (dump_csv true true two ≡ (some text, true)) × (read_csv text ≡ sample 7 ∷ [])
unfolding record_sample
dump_csv-read_csv_example = dump_csv-read_csv true two

-- Numbers of ten-thousandths.
abbrev pub fixed_point : Floating
fixed_point = record {
  literal = λ m n. m * 10000 / n;
  of_u64 = λ n. n * 10000;
  to_u64 = λ a. a / 10000;
  mul = λ a b. a * b / 10000;
  div = λ a b. a * 10000 / b;
  less = ltb;
  long_of_u64 = λ n. n;
  long_add = λ a b. a + b;
  long_div = λ a b. a / b;
  of_long = λ a. a * 10000;
}

pub fixed_point-IsFloating : IsFloating fixed_point
fixed_point-IsFloating = record {
  share = λ p n le small. omega (arith, scaled p 10000 n le);
  truncated = λ p q n le. omega (arith, scaled p q n le);
  compared = λ p q m n le less. ground (arith, less, scaled p q n le);
}
  where
    scaled : (p q n : ℕ) → p ≤ q → p * 10000 / 10000 * (n * 10000) ≤ q * 10000 / 10000 * (n * 10000)
    scaled p q n le = mul-le-mul_right (n * 10000) same
      where
        same : p * 10000 / 10000 ≤ q * 10000 / 10000
        same = omega arith

-- Of the numbers 7, 8 and 9, one is missing.
report-IsReport_example : IsReport 1 (sample 7 ∷ sample 9 ∷ []) two (report fixed_point two)
unfolding record_sample count_sample
report-IsReport_example =
    report-IsReport 1 (sample 7 ∷ sample 9 ∷ []) two two-IsAccumulated fixed_point
      fixed_point-IsFloating (omega arith) (omega arith) (omega arith) (omega arith) (omega arith)

-- The ranks of five latencies.
percentile_example :
    (percentile fixed_point (sort (50 ∷ 10 ∷ 40 ∷ 20 ∷ 30 ∷ [])) 5000 ≡ 30)
    × (percentile fixed_point (sort (50 ∷ 10 ∷ 40 ∷ 20 ∷ 30 ∷ [])) 100 ≡ 10)
    × (percentile fixed_point (sort (50 ∷ 10 ∷ 40 ∷ 20 ∷ 30 ∷ [])) 9999 ≡ 50)
unfolding percentile sort
percentile_example = (refl, refl, refl)

abbrev start : ConsumerState
start = record {
  read_index = 0;
  received = 0;
  lapped_events = 0;
  last_progress = 0;
  frame = replicate 96 0;
  accumulator = accumulator 1;
  finished = false;
}

abbrev pub clock : ℕ → ℕ
clock i = 1000 + i

-- Rounds at the times of a clock while nobody stores.
abbrev pub still_rounds : Region → ℕ → ℕ → List Round
still_rounds r i zero = []
still_rounds r i (suc n) = record { snapshots = still r; now = clock i } ∷ still_rounds r (i + 1) n

-- Frame 8 is taken while frame 9 is being stored over frame 7, and frame 9 is not there yet.
abbrev later : Loads 1 96
later = record {
  at_seq = storing 1;
  at_len = storing 1;
  at_copy = λ b. storing 1;
  at_recheck = storing 1;
  at_edge = storing 1;
  to_len = Reach.here;
  to_copy = λ b. Reach.here;
  to_recheck = λ b. Reach.here;
  to_edge = Reach.here;
}

abbrev behind : ConsumerState
behind = record start { read_index = 1 }
