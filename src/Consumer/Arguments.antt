-- ===== src/Consumer/Arguments.antt =====
-- Refused options end harness/src/consumer.cpp with status 2.
use low_latency_data_transfe.Base.{[], ◌∷◌, List, true, Option, none, some}
use low_latency_data_transfe.Config.{Str}
use low_latency_data_transfe.Ports.Info.{same_string}
use low_latency_data_transfe.Options.{Completion, codes, done, exit, stoull, and_then}
use low_latency_data_transfe.Options.Yields.{
  Yields, Anything, done-Yields, exit-Yields, if-Yields, and_then-Yields, stoull-Yields,
}
use low_latency_data_transfe.Consumer.Options.{
  Config, default_config, set_option, parse_options, parse_args,
}

set_option-Yields :
    (c : Config) (argument : Str) (value : Completion Str)
    → Yields 2 Anything value
    → Yields 2 Anything (set_option c argument value)
unfolding set_option
set_option-Yields c argument value h =
    let number = and_then-Yields value stoull h (λ v ok. stoull-Yields 2 v) in
    if-Yields (same_string argument (codes "--shm"))
      (and_then-Yields value _ h λ v ok. done-Yields 2 tt)
      (if-Yields (same_string argument (codes "--slots"))
        (and_then-Yields (and_then value stoull) _ number λ v ok. done-Yields 2 tt)
        (if-Yields (same_string argument (codes "--count"))
          (and_then-Yields (and_then value stoull) _ number λ v ok. done-Yields 2 tt)
          (if-Yields (same_string argument (codes "--csv"))
            (and_then-Yields value _ h λ v ok. done-Yields 2 tt)
            (if-Yields (same_string argument (codes "--idle-ms"))
              (and_then-Yields (and_then value stoull) _ number λ v ok. done-Yields 2 tt)
              (exit-Yields 2)))))

parse_options-Yields :
    (c : Config) (pending : Option Str) (args : List Str)
    → Yields 2 Anything (parse_options c pending args)
unfolding parse_options
parse_options-Yields c none [] = done-Yields 2 tt
parse_options-Yields c (some argument) [] = set_option-Yields c argument (exit 2) (exit-Yields 2)
parse_options-Yields c none (argument ∷ rest) =
    if-Yields (same_string argument (codes "--from-edge"))
      (parse_options-Yields (record c { from_edge = true }) none rest)
      (parse_options-Yields c (some argument) rest)
parse_options-Yields c (some argument) (value ∷ rest) =
    and_then-Yields (set_option c argument (done value)) (λ c'. parse_options c' none rest)
      (set_option-Yields c argument (done value) (done-Yields 2 tt))
      (λ c' ok. parse_options-Yields c' none rest)

pub parse_args-Yields : (args : List Str) → Yields 2 Anything (parse_args args)
unfolding parse_args
parse_args-Yields args = parse_options-Yields default_config none args
