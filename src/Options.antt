-- ===== src/Options.antt =====
-- What the options of harness/src/producer.cpp and harness/src/consumer.cpp share: how `parse_args`
-- comes back, and the C++ library's `std::stoul` and `std::stoull`, which agree where
-- `unsigned long` has 64 bits. Strings are lists of character codes.
pub mod Yields
use Prim.Native.Char.{code}
use Prim.Native.String.{String}
use low_latency_data_transfe.Base.{
  ℕ, ◌+◌, ◌-◌, ◌*◌, ◌^◌, Option, none, some, List, [], ◌∷◌, Bool, true, false, ◌&&◌, ◌||◌, ltb, leb,
  ◌==◌, if◌then◌else◌, u64,
}
use low_latency_data_transfe.Config.{Str}

abbrev pub codes : String → Str
codes String.[] = []
codes (String.◌∷◌ c s) = code c ∷ codes s

-- A result, `std::exit`, or an exception that leaves `main`.
pub data Completion (A : Type 0) : Type 0 where
  done : A → Completion A
  exit : ℕ → Completion A
  uncaught : Completion A

abbrev pub and_then : {A B : Type 0} → Completion A → (A → Completion B) → Completion B
and_then (done a) f = f a
and_then (exit n) f = exit n
and_then uncaught f = uncaught

abbrev pub or_throw : {A : Type 0} → Option A → Completion A
or_throw none = uncaught
or_throw (some a) = done a

-- `std::isspace` in the "C" locale.
unfoldable pub is_space : ℕ → Bool
is_space c = c == 32 || leb 9 c && leb c 13

unfoldable pub is_digit : ℕ → Bool
is_digit c = leb 48 c && leb c 57

unfoldable pub skip_spaces : Str → Str
unfolding is_space
skip_spaces [] = []
skip_spaces (c ∷ cs) = let rest = skip_spaces cs in if is_space c then rest else c ∷ cs

-- The number that the digits at the front stand for; what follows them is not read.
unfoldable pub decimal : ℕ → Str → ℕ
unfolding is_digit
decimal acc [] = acc
decimal acc (c ∷ cs) =
    let rest = decimal (acc * 10 + (c - 48)) cs in if is_digit c then rest else acc

-- Behind the sign: `std::invalid_argument` without a digit, `std::out_of_range` above 64 bits, and
-- the negative in 64 bits behind a minus.
unfoldable pub unsigned : Bool → Str → Completion ℕ
unfolding is_digit decimal
unsigned negative [] = uncaught
unsigned negative (c ∷ cs) =
    let n = decimal 0 (c ∷ cs) in
    if is_digit c && ltb n (2 ^ 64)
    then done (if negative then u64 (2 ^ 64 - n) else n)
    else uncaught

unfoldable pub signed : Str → Completion ℕ
unfolding unsigned
signed [] = uncaught
signed (c ∷ cs) =
    if c == 45
    then unsigned true cs
    else if c == 43
    then unsigned false cs
    else unsigned false (c ∷ cs)

unfoldable pub stoull : Str → Completion ℕ
unfolding signed skip_spaces
stoull s = signed (skip_spaces s)
