-- ===== src/Config/Valid.antt =====
-- What a configuration guarantees that `try_parse_endpoint_config` accepts.
use low_latency_data_transfe.Base.{
  ℕ, zero, suc, ◌+◌, ◌-◌, ◌^◌, ◌<◌, ◌≡◌, refl, subst, List, [], ◌∷◌, true, false, ◌||◌, not, Option,
  none, some, ◌==◌, arith, get_or, length, bit_and, ◌≢◌, Option-cases, Bool-cases, inl, inr,
}
use low_latency_data_transfe.Base.Bits.{is_pow2}
use low_latency_data_transfe.Config.{
  Str, EndpointConfig, ParseState, initial, parse_num_from_string, next_value, parse_shm,
  accept_slots, parse_slots, parse_ip_arg, set_local_ip, set_peer_ip, accept_port, parse_port_arg,
  parse_octets, zero_octets_count, accept_mac, parse_next_hop_mac, OptionName, shm, slots, local_ip,
  peer_ip, data_port, next_hop_mac, batching, unknown, option_name, takes_value, parse_option,
  parse_args, finish, try_parse_endpoint_config,
}

-- Six octets, not all of them zero, and the first one even.
pub record IsUnicast (octets : List ℕ) : Type 0 where
  pub six : length octets ≡ 6
  pub not_zero : zero_octets_count octets ≢ 6
  pub even : bit_and (get_or octets 0 0) 1 ≡ 0

-- The options that were set so far are valid.
record IsParse (inet_pton : Str → Option ℕ) (st : ParseState) : Type 0 where
  pub has_slots :
      st.slots_flag ≡ true → (st.config.slots < 2 ^ 32) × ((k : ℕ) × (st.config.slots ≡ 2 ^ k))
  pub has_port :
      st.data_port_flag ≡ true → (0 < st.config.data_port) × (st.config.data_port < 2 ^ 16)
  pub has_local : st.local_ip_flag ≡ true → (s : Str) × (inet_pton s ≡ some st.config.local_ipv4_be)
  pub has_peer : st.peer_ip_flag ≡ true → (s : Str) × (inet_pton s ≡ some st.config.peer_ipv4_be)
  pub has_mac : st.next_hop_mac_flag ≡ true → IsUnicast st.config.next_hop_mac

abbrev AllParsed : (Str → Option ℕ) → Option ParseState → Type 0
AllParsed inet_pton none = Unit {0}
AllParsed inet_pton (some st) = IsParse inet_pton st

parse_num_from_string-lt :
    (w base n : ℕ) (s : Str) → parse_num_from_string w base s ≡ some n → n < 2 ^ w
unfolding parse_num_from_string
parse_num_from_string-lt w base n [] e = cc
parse_num_from_string-lt w base n (c ∷ cs) e = ground arith

length-parse_octets :
    (mac : Str) (idx left : ℕ) (octets : List ℕ)
    → parse_octets mac idx left ≡ some octets
    → length octets ≡ left
unfolding parse_octets
length-parse_octets mac idx zero octets e = ground arith
length-parse_octets mac idx (suc left) octets e =
    elim (Option-cases (parse_octets mac (idx + 1) left)) [
      | inl r ↦ ground (arith, r)
      | inr (os, r) ↦ ground (arith, r, length-parse_octets mac (idx + 1) left os r)
    ]

module _ (inet_pton : Str → Option ℕ) (st : ParseState) (v : IsParse inet_pton st) where
  accept_slots-AllParsed :
      (n : Option ℕ) → ((m : ℕ) → n ≡ some m → m < 2 ^ 32) → AllParsed inet_pton (accept_slots st n)
  unfolding accept_slots
  accept_slots-AllParsed none small = tt
  accept_slots-AllParsed (some n) small =
      elim (Bool-cases (n == 0 || not (bit_and (n - 1) n == 0))) [
        | inl bad ↦ simp bad tt
        | inr good ↦ simp good (record {
          has_slots = λ _. (small n refl, is_pow2 n (ground arith) (ground arith));
          has_port = v.has_port;
          has_local = v.has_local;
          has_peer = v.has_peer;
          has_mac = v.has_mac;
        })
      ]

  accept_port-AllParsed :
      (n : Option ℕ) → ((m : ℕ) → n ≡ some m → m < 2 ^ 16) → AllParsed inet_pton (accept_port st n)
  unfolding accept_port
  accept_port-AllParsed none small = tt
  accept_port-AllParsed (some n) small = elim (Bool-cases (n == 0)) [
    | inl bad ↦ simp bad tt
    | inr good ↦ simp good (record {
      has_slots = v.has_slots;
      has_port = λ _. (ground arith, small n refl);
      has_local = v.has_local;
      has_peer = v.has_peer;
      has_mac = v.has_mac;
    })
  ]

  accept_mac-AllParsed :
      (octets : Option (List ℕ))
      → ((os : List ℕ) → octets ≡ some os → length os ≡ 6)
      → AllParsed inet_pton (accept_mac st octets)
  unfolding accept_mac
  accept_mac-AllParsed none six = tt
  accept_mac-AllParsed (some os) six = elim (Bool-cases (zero_octets_count os == 6)) [
    | inl bad ↦ simp bad tt
    | inr some_octet ↦ elim (Bool-cases (not (bit_and (get_or os 0 0) 1 == 0))) [
      | inl odd ↦ simp (some_octet, odd) tt
      | inr good ↦
          simp (some_octet, good)
            (record {
              has_slots = v.has_slots;
              has_port = v.has_port;
              has_local = v.has_local;
              has_peer = v.has_peer;
              has_mac =
                  λ _. record { six = six os refl; not_zero = ground arith; even = ground arith };
            })
    ]
  ]

  set_local_ip-AllParsed :
      (next : Option Str)
      → AllParsed inet_pton (set_local_ip st (parse_ip_arg inet_pton st.local_ip_flag next))
  unfolding set_local_ip parse_ip_arg
  set_local_ip-AllParsed none = tt
  set_local_ip-AllParsed (some s) = elim (Bool-cases st.local_ip_flag) [
    | inl twice ↦ simp twice tt
    | inr once ↦ simp once (elim (Option-cases (inet_pton s)) [
      | inl bad ↦ simp bad tt
      | inr (ip, is_ip) ↦ simp is_ip (record {
        has_slots = v.has_slots;
        has_port = v.has_port;
        has_local = λ _. (s, is_ip);
        has_peer = v.has_peer;
        has_mac = v.has_mac;
      })
    ])
  ]

  set_peer_ip-AllParsed :
      (next : Option Str)
      → AllParsed inet_pton (set_peer_ip st (parse_ip_arg inet_pton st.peer_ip_flag next))
  unfolding set_peer_ip parse_ip_arg
  set_peer_ip-AllParsed none = tt
  set_peer_ip-AllParsed (some s) = elim (Bool-cases st.peer_ip_flag) [
    | inl twice ↦ simp twice tt
    | inr once ↦ simp once (elim (Option-cases (inet_pton s)) [
      | inl bad ↦ simp bad tt
      | inr (ip, is_ip) ↦ simp is_ip (record {
        has_slots = v.has_slots;
        has_port = v.has_port;
        has_local = v.has_local;
        has_peer = λ _. (s, is_ip);
        has_mac = v.has_mac;
      })
    ])
  ]

  parse_option-AllParsed :
      (name : OptionName) (next : Option Str)
      → AllParsed inet_pton (parse_option inet_pton st name next)
  unfolding parse_option parse_shm parse_slots parse_port_arg parse_next_hop_mac
  parse_option-AllParsed shm none = tt
  parse_option-AllParsed shm (some s) = elim (Bool-cases st.shm_flag) [
    | inl twice ↦ simp twice tt
    | inr once ↦ simp once (record {
      has_slots = v.has_slots;
      has_port = v.has_port;
      has_local = v.has_local;
      has_peer = v.has_peer;
      has_mac = v.has_mac;
    })
  ]
  parse_option-AllParsed slots none = tt
  parse_option-AllParsed slots (some s) = elim (Bool-cases st.slots_flag) [
    | inl twice ↦ simp twice tt
    | inr once ↦ simp once (
        accept_slots-AllParsed (parse_num_from_string 32 10 s)
          λ n e. parse_num_from_string-lt 32 10 n s e)
  ]
  parse_option-AllParsed local_ip next = set_local_ip-AllParsed next
  parse_option-AllParsed peer_ip next = set_peer_ip-AllParsed next
  parse_option-AllParsed data_port none = tt
  parse_option-AllParsed data_port (some s) = elim (Bool-cases st.data_port_flag) [
    | inl twice ↦ simp twice tt
    | inr once ↦ simp once (
        accept_port-AllParsed (parse_num_from_string 16 10 s)
          λ n e. parse_num_from_string-lt 16 10 n s e)
  ]
  parse_option-AllParsed next_hop_mac none = tt
  parse_option-AllParsed next_hop_mac (some s) = elim (Bool-cases st.next_hop_mac_flag) [
    | inl twice ↦ simp twice tt
    | inr once ↦ elim (Bool-cases (not (length s == 17))) [
      | inl short ↦ simp (once, short) tt
      | inr long ↦
          simp (once, long)
            (accept_mac-AllParsed (parse_octets s 0 6) λ os e. length-parse_octets s 0 6 os e)
    ]
  ]
  parse_option-AllParsed batching next = record {
    has_slots = v.has_slots;
    has_port = v.has_port;
    has_local = v.has_local;
    has_peer = v.has_peer;
    has_mac = v.has_mac;
  }
  parse_option-AllParsed unknown next = tt

module _ (inet_pton : Str → Option ℕ) where
  parse_args-AllParsed :
      (st : Option ParseState) (args : List Str)
      → AllParsed inet_pton st
      → AllParsed inet_pton (parse_args inet_pton st args)
  unfolding parse_args
  parse_args-AllParsed none args v = tt
  parse_args-AllParsed (some st) [] v = v
  parse_args-AllParsed (some st) (arg ∷ []) v =
      parse_option-AllParsed inet_pton st v (option_name arg) none
  parse_args-AllParsed (some st) (arg ∷ (value ∷ rest)) v =
      let st' = parse_option inet_pton st (option_name arg) (next_value value) in
      let v' = parse_option-AllParsed inet_pton st v (option_name arg) (next_value value) in
      elim (takes_value (option_name arg))
        as (λ takes. AllParsed inet_pton (elim takes [
          | true ↦ parse_args inet_pton st' rest
          | false ↦ parse_args inet_pton st' (value ∷ rest)
        ])) [
          | true ↦ parse_args-AllParsed st' rest v'
          | false ↦ parse_args-AllParsed st' (value ∷ rest) v'
        ]

  initial-IsParse : IsParse inet_pton initial
  initial-IsParse = record {
    has_slots = λ e. cc;
    has_port = λ e. cc;
    has_local = λ e. cc;
    has_peer = λ e. cc;
    has_mac = λ e. cc;
  }

-- What the endpoints rely on: a ring that masks can address, a port, addresses that `inet_pton`
-- accepted, and the address of a single station.
pub record IsConfig (inet_pton : Str → Option ℕ) (c : EndpointConfig) : Type 0 where
  pub slots_fit : c.slots < 2 ^ 32
  pub slots_pow2 : (k : ℕ) × (c.slots ≡ 2 ^ k)
  pub port : (0 < c.data_port) × (c.data_port < 2 ^ 16)
  pub local : (s : Str) × (inet_pton s ≡ some c.local_ipv4_be)
  pub peer : (s : Str) × (inet_pton s ≡ some c.peer_ipv4_be)
  pub mac : IsUnicast c.next_hop_mac

module _ (inet_pton : Str → Option ℕ) (c : EndpointConfig) where
  finish-flags :
      (st : ParseState)
      → finish inet_pton (some st) ≡ some c
      → (st.slots_flag ≡ true)
        × (st.local_ip_flag ≡ true)
        × (st.peer_ip_flag ≡ true)
        × (st.data_port_flag ≡ true)
        × (st.next_hop_mac_flag ≡ true)
        × (st.config ≡ c)
  unfolding finish
  finish-flags st e = ground arith

  finish-IsConfig :
      (st : Option ParseState)
      → AllParsed inet_pton st
      → finish inet_pton st ≡ some c
      → IsConfig inet_pton c
  unfolding finish
  finish-IsConfig none v e = cc
  finish-IsConfig (some st) v e =
      let (slots_set, local_set, peer_set, port_set, mac_set, same) = finish-flags st e in
      subst (IsConfig inet_pton) same record {
        slots_fit = (v.has_slots slots_set).0;
        slots_pow2 = (v.has_slots slots_set).1;
        port = v.has_port port_set;
        local = v.has_local local_set;
        peer = v.has_peer peer_set;
        mac = v.has_mac mac_set;
      }

  -- Whatever the arguments are, an accepted configuration has a power of two of slots below 2^32,
  -- a port that is not 0, addresses that inet_pton accepted, and a MAC address of six octets that
  -- is neither zero nor multicast.
  pub try_parse_endpoint_config-IsConfig :
      (args : List Str) → try_parse_endpoint_config inet_pton args ≡ some c → IsConfig inet_pton c
  unfolding try_parse_endpoint_config
  try_parse_endpoint_config-IsConfig args e =
      finish-IsConfig (parse_args inet_pton (some initial) args)
        (parse_args-AllParsed inet_pton (some initial) args (initial-IsParse inet_pton)) e
