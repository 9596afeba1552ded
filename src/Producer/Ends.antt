-- ===== src/Producer/Ends.antt =====
-- How `main` of harness/src/producer.cpp ends, and what it publishes.
use low_latency_data_transfe.Base.{
  ℕ, ◌^◌, ◌<◌, [], ◌∷◌, List, true, ◌≡◌, refl, ap, ◌∙◌, subst, ◌⊎◌, inl, inr, Option, Option-cases,
  Bool-cases, none, some, arith, length, get_or,
}
use low_latency_data_transfe.Base.Bits.{is_pow2_behind, small-exponent}
use low_latency_data_transfe.Config.{Str}
use low_latency_data_transfe.Ring.{Region, region_size, no_slot, attach}
use low_latency_data_transfe.Ring.Attach.{attach-IsRing, MapsWhole}
use low_latency_data_transfe.Metrics.{Floating}
use low_latency_data_transfe.Message.{Profile}
use low_latency_data_transfe.Ports.Info.{same_string}
use low_latency_data_transfe.Options.{
  Completion, codes, or_throw, done, exit, uncaught, stoull, and_then,
}
use low_latency_data_transfe.Options.Yields.{
  Completion-cases, Yields, Anything, or_throw-Yields, done-Yields, exit-Yields, Yields-done,
  Yields-exit, if-Yields, and_then-Yields, stoull-Yields,
}
use low_latency_data_transfe.Producer.{Builders, IsBuilders, ProducerState, Round, is_power_of_two}
use low_latency_data_transfe.Producer.Published.{Runs, run_producer-IsProduced}
use low_latency_data_transfe.Producer.Options.{
  Config, parse_kind, set_option, parse_options, parse_args,
}
use low_latency_data_transfe.Producer.Program.{
  Surroundings, interval_of, produce_region, producer_main,
}

abbrev IsSlots32 : Config → Type 0
IsSlots32 c = c.slots < 2 ^ 32

-- What `parse_args` accepts.
abbrev IsConfig : Config → Type 0
IsConfig c = (k : ℕ) × (k < 32) × (c.slots ≡ 2 ^ k)

parse_kind-Yields : (s : Str) → Yields 2 Anything (parse_kind s)
unfolding parse_kind
parse_kind-Yields s = if-Yields (same_string s (codes "trade")) (done-Yields 2 tt) (
    if-Yields (same_string s (codes "bbo")) (done-Yields 2 tt) (
      if-Yields (same_string s (codes "book")) (done-Yields 2 tt)
        (if-Yields (same_string s (codes "mixed")) (done-Yields 2 tt) (exit-Yields 2))))

is_power_of_two-pow : (n : ℕ) → is_power_of_two n ≡ true → (k : ℕ) × (n ≡ 2 ^ k)
unfolding is_power_of_two
is_power_of_two-pow n h = is_pow2_behind n (ground (arith, h)) (ground (arith, h))

module _ (stod : Str → Option ℕ) where
  set_option-Yields :
      (c : Config) (a : Str) (value : Completion Str)
      → IsSlots32 c
      → Yields 2 Anything value
      → Yields 2 IsSlots32 (set_option stod c a value)
  unfolding set_option
  set_option-Yields c a value small h =
      let number = and_then-Yields value stoull h (λ v ok. stoull-Yields 2 v) in
      if-Yields (same_string a (codes "--shm"))
        (and_then-Yields value _ h λ v ok. done-Yields 2 small)
        (if-Yields (same_string a (codes "--slots"))
          (and_then-Yields (and_then value stoull) _ number λ n ok. done-Yields 2 (omega arith))
          (if-Yields (same_string a (codes "--count"))
            (and_then-Yields (and_then value stoull) _ number λ n ok. done-Yields 2 small)
            (if-Yields (same_string a (codes "--rate"))
              (and_then-Yields (and_then value (λ v. or_throw (stod v))) _
                (and_then-Yields value (λ v. or_throw (stod v)) h
                  (λ v ok. or_throw-Yields 2 (stod v)))
                λ x ok. done-Yields 2 small)
              (if-Yields (same_string a (codes "--type"))
                (and_then-Yields (and_then value parse_kind) _
                  (and_then-Yields value parse_kind h (λ v ok. parse_kind-Yields v))
                  λ k ok. done-Yields 2 small)
                (exit-Yields 2)))))

  parse_options-Yields :
      (c : Config) (args : List Str) → IsSlots32 c → Yields 2 IsSlots32 (parse_options stod c args)
  unfolding parse_options
  parse_options-Yields c [] small = done-Yields 2 small
  parse_options-Yields c (a ∷ []) small = set_option-Yields c a (exit 2) small (exit-Yields 2)
  parse_options-Yields c (a ∷ (value ∷ rest)) small =
      and_then-Yields (set_option stod c a (done value)) (λ c'. parse_options stod c' rest)
        (set_option-Yields c a (done value) small (done-Yields 2 tt))
        (λ c' ok. parse_options-Yields c' rest ok)

  -- The number of slots is a power of two that 32 bits hold.
  parse_args-Yields :
      (zero_rate : ℕ) (args : List Str) → Yields 2 IsConfig (parse_args stod zero_rate args)
  unfolding parse_args
  parse_args-Yields zero_rate args =
      and_then-Yields (parse_options stod _ args) _ (parse_options-Yields _ args (omega arith))
        λ c small. elim (Bool-cases (is_power_of_two c.slots)) [
          | inl power ↦
              let (k, e) = is_power_of_two-pow c.slots power in
              simp power (done-Yields 2 (k, small-exponent k (omega (arith, e)), e))
          | inr other ↦ simp other (exit-Yields 2)
        ]

-- What a run that gets to its loop has: the configuration, the segment, and what the loop left.
pub record Production (p : Profile) (b : Builders) (law : IsBuilders p b) (d : Floating)
    (world : Surroundings) (rounds : List Round) (args : List Str) (st : ProducerState)
    : Type 0 where
  pub config : Config
  pub parsed : parse_args world.stod (d.literal 0 1) args ≡ done config
  pub region : Region
  pub opened : world.opens config.shm_name (region_size p.max_frame config.slots) true ≡ some region
  pub slots_exp : ℕ
  pub slots_small : slots_exp < 32
  pub slots : config.slots ≡ 2 ^ slots_exp
  pub runs :
      Runs p b law config.kind slots_exp
        (interval_of d config.rate)
        config.count
        []
        ((attach p.max_frame region config.slots true).0)
        rounds
        st

module _ (p : Profile) (b : Builders) (law : IsBuilders p b) (d : Floating) (world : Surroundings)
    (rounds : List Round) where
  -- The ways in which `main` ends.
  abbrev pub Ends : List Str → Completion ProducerState → Type 0
  Ends args (done st) = Production p b law d world rounds args st
  Ends args (exit status) =
      ((status ≡ 2) × (parse_args world.stod (d.literal 0 1) args ≡ exit 2))
      ⊎ ((status ≡ 1)
          × (config : Config) × (parse_args world.stod (d.literal 0 1) args ≡ done config)
          × (world.opens config.shm_name (region_size p.max_frame config.slots) true ≡ none))
  Ends args uncaught = parse_args world.stod (d.literal 0 1) args ≡ uncaught

  produce_region-Runs :
      (config : Config) (region : Region) (k : ℕ)
      → config.slots ≡ 2 ^ k
      → k < 32
      → length region.slots ≡ 2 ^ k
      → ((i : ℕ) → i < 2 ^ k → length (get_or region.slots i no_slot).frame ≡ p.max_frame)
      → length world.frame ≡ p.max_frame
      → length rounds < 2 ^ 64
      → Runs p b law config.kind k
          (interval_of d config.rate)
          config.count
          []
          ((attach p.max_frame region config.slots true).0)
          rounds
          (produce_region p b d world rounds config region)
  unfolding produce_region
  produce_region-Runs config region k slots small len size room few = rw slots (
      let (ring, mask_is) = attach-IsRing p.max_frame k region small len size in
      rw mask_is (
        run_producer-IsProduced p b law config.kind k (interval_of d config.rate) config.count [] _
          rounds (record { buffer = room; seq = refl; ring = ring; numbered = tt }) (omega arith)))

  -- The producer, over fewer than 2^64 rounds, in a segment with room for the slots that it was
  -- sized for, with a frame buffer for the largest message, and with builders that write complete
  -- frames of their number, exits with status 2 where its options are refused, is ended by an
  -- exception where a number is none or too large, exits with status 1 where there is no segment,
  -- and else has a power of two below 2^32 as its slots, and publishes: its ring stands for complete
  -- frames numbered 1, 2, …, at most one for each round and no more than the limit, if one is set,
  -- and one for each round if there is neither a limit nor a rate.
  pub producer_main-Ends :
      (args : List Str)
      → MapsWhole p.max_frame world.opens
      → length world.frame ≡ p.max_frame
      → length rounds < 2 ^ 64
      → Ends args (producer_main p b d world rounds args)
  unfolding producer_main
  producer_main-Ends args whole room few =
      elim (Completion-cases (parse_args world.stod (d.literal 0 1) args)) [
        | inl (config, parsed) ↦
            let (k, small, slots) = Yields-done 2 config (
              subst (Yields 2 IsConfig) parsed
                (parse_args-Yields world.stod (d.literal 0 1) args)) in
            elim (Option-cases
              (world.opens config.shm_name (region_size p.max_frame config.slots) true)) [
                | inl closed ↦ rw parsed (rw closed (inr (refl, config, parsed, closed)))
                | inr (region, opened) ↦
                    let (len, size) = whole config.shm_name config.slots region opened in
                    rw parsed (
                      rw opened (record {
                        config = config;
                        parsed = parsed;
                        region = region;
                        opened = opened;
                        slots_exp = k;
                        slots_small = small;
                        slots = slots;
                        runs =
                            produce_region-Runs config region k slots small (len ∙ slots)
                              (λ i h. size i (omega (arith, slots))) room few;
                      }))
              ]
        | inr (inl (status, refused)) ↦
            let two = Yields-exit 2 status (
              subst (Yields 2 IsConfig) refused
                (parse_args-Yields world.stod (d.literal 0 1) args)) in
            rw refused (inl (two, refused ∙ ap exit two))
        | inr (inr thrown) ↦ rw thrown thrown
      ]
