-- ===== src/Producer/Options.antt =====
-- harness/src/producer.cpp: `Config`, `parse_kind` and `parse_args`, on the arguments behind the
-- program's name. `std::stod` is a parameter that gives no number where it throws.
use low_latency_data_transfe.Base.{ℕ, ◌%◌, ◌^◌, [], ◌∷◌, List, Option, if◌then◌else◌}
use low_latency_data_transfe.Config.{Str}
use low_latency_data_transfe.Ports.Info.{same_string}
use low_latency_data_transfe.Options.{codes, Completion, done, exit, and_then, or_throw, stoull}
use low_latency_data_transfe.Producer.{Kind, trade, bbo, book, mixed, is_power_of_two}

pub record Config : Type 0 where
  pub shm_name : Str
  pub slots : ℕ
  pub count : ℕ
  pub rate : ℕ
  pub kind : Kind

unfoldable pub parse_kind : Str → Completion Kind
unfolding same_string
parse_kind s =
    if same_string s (codes "trade")
    then done trade
    else if same_string s (codes "bbo")
    then done bbo
    else if same_string s (codes "book")
    then done book
    else if same_string s (codes "mixed")
    then done mixed
    else exit 2

module _ (stod : Str → Option ℕ) where
  -- The assignment of each option, by what `next` gives.
  unfoldable pub set_option : Config → Str → Completion Str → Completion Config
  unfolding same_string stoull parse_kind
  set_option c a value =
      if same_string a (codes "--shm")
      then and_then value (λ v. done (record c { shm_name = v }))
      else if same_string a (codes "--slots")
      then and_then (and_then value stoull) (λ n. done (record c { slots = n % 2 ^ 32 }))
      else if same_string a (codes "--count")
      then and_then (and_then value stoull) (λ n. done (record c { count = n }))
      else if same_string a (codes "--rate")
      then and_then (and_then value (λ v. or_throw (stod v))) (λ x. done (record c { rate = x }))
      else if same_string a (codes "--type")
      then and_then (and_then value parse_kind) (λ k. done (record c { kind = k }))
      else exit 2

  unfoldable pub parse_options : Config → List Str → Completion Config
  unfolding set_option
  parse_options c [] = done c
  parse_options c (a ∷ []) = set_option c a (exit 2)
  parse_options c (a ∷ (value ∷ rest)) =
      and_then (set_option c a (done value)) (λ c'. parse_options c' rest)

  -- The default rate is 0.0.
  unfoldable pub parse_args : ℕ → List Str → Completion Config
  unfolding parse_options is_power_of_two
  parse_args zero_rate args =
      and_then
        (parse_options
          (record {
            shm_name = codes "/fanout_ring";
            slots = 1024;
            count = 1000000;
            rate = zero_rate;
            kind = mixed;
          })
          args)
        λ c. if is_power_of_two c.slots then done c else exit 2
