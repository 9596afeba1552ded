-- ===== src/Consumer/Options.antt =====
-- harness/src/consumer.cpp: `Config` and `parse_args`, on the arguments behind the program's name.
use low_latency_data_transfe.Base.{
  ℕ, ◌%◌, ◌^◌, [], ◌∷◌, List, Option, none, some, Bool, true, false, if◌then◌else◌,
}
use low_latency_data_transfe.Config.{Str}
use low_latency_data_transfe.Ports.Info.{same_string}
use low_latency_data_transfe.Options.{codes, Completion, done, exit, and_then, stoull}

pub record Config : Type 0 where
  pub shm_name : Str
  pub slots : ℕ
  pub count : ℕ
  pub from_edge : Bool
  pub csv : Str
  pub idle_ms : ℕ

abbrev pub default_config : Config
default_config = record {
  shm_name = codes "/fanout_ring";
  slots = 1024;
  count = 0;
  from_edge = false;
  csv = [];
  idle_ms = 2000;
}

-- The options with a value, by what `next` gives.
unfoldable pub set_option : Config → Str → Completion Str → Completion Config
unfolding same_string stoull
set_option c argument value =
    if same_string argument (codes "--shm")
    then and_then value (λ v. done (record c { shm_name = v }))
    else if same_string argument (codes "--slots")
    then and_then (and_then value stoull) (λ n. done (record c { slots = n % 2 ^ 32 }))
    else if same_string argument (codes "--count")
    then and_then (and_then value stoull) (λ n. done (record c { count = n }))
    else if same_string argument (codes "--csv")
    then and_then value (λ v. done (record c { csv = v }))
    else if same_string argument (codes "--idle-ms")
    then and_then (and_then value stoull) (λ n. done (record c { idle_ms = n }))
    else exit 2

-- The loop of `parse_args`; the second argument is the option whose value `next` is to give.
unfoldable pub parse_options : Config → Option Str → List Str → Completion Config
unfolding set_option same_string
parse_options c none [] = done c
parse_options c (some argument) [] = set_option c argument (exit 2)
parse_options c none (argument ∷ rest) =
    let from_edge = parse_options (record c { from_edge = true }) none rest in
    let with_value = parse_options c (some argument) rest in
    if same_string argument (codes "--from-edge") then from_edge else with_value
parse_options c (some argument) (value ∷ rest) =
    and_then (set_option c argument (done value)) (λ c'. parse_options c' none rest)

unfoldable pub parse_args : List Str → Completion Config
unfolding parse_options
parse_args args = parse_options default_config none args
