-- ===== src/Config.antt =====
-- src/config.cpp: the options of the endpoints. A string is the list of its characters' codes, and a
-- function that may refuse returns an Option; `inet_pton` is a parameter. The messages on `stderr`
-- are left out.
pub mod Valid
use low_latency_data_transfe.Base.{
  ℕ, zero, suc, ◌+◌, ◌-◌, ◌*◌, ◌^◌, List, [], ◌∷◌, Bool, true, false, ◌&&◌, ◌||◌, not, Option, none,
  some, ltb, leb, ◌==◌, if◌then◌else◌, get_or, length, take, drop, bit_and,
}

abbrev pub Str : Type 0
Str = List ℕ

-- `std::tolower` in the "C" locale.
unfoldable pub tolower : ℕ → ℕ
tolower c = if leb 65 c && leb c 90 then c + 32 else c

unfoldable pub equal_lower : Str → Str → Bool
equal_lower [] [] = true
equal_lower [] (r ∷ rs) = false
equal_lower (l ∷ ls) [] = false
equal_lower (l ∷ ls) (r ∷ rs) = tolower l == tolower r && equal_lower ls rs

-- `equals_ignore_case(lhs, rhs)`, where `isValue` is false: the two dashes are compared as they are.
unfoldable pub equals_ignore_case : Str → Str → Bool
unfolding equal_lower
equals_ignore_case lhs rhs =
    if not (length lhs == length rhs)
    then false
    else if not (get_or lhs 0 0 == get_or rhs 0 0) || not (get_or lhs 1 0 == get_or rhs 1 0)
    then false
    else equal_lower (drop 2 lhs) (drop 2 rhs)

-- A digit of `std::from_chars`, in a base up to 16.
unfoldable pub digit : ℕ → Option ℕ
digit c =
    if leb 48 c && leb c 57
    then some (c - 48)
    else if leb 97 c && leb c 102
    then some (c - 87)
    else if leb 65 c && leb c 70
    then some (c - 55)
    else none

-- The number that the digits stand for, unless a character is no digit of the base.
unfoldable pub digits : ℕ → ℕ → Str → Option ℕ
unfolding digit
digits base acc [] = some acc
digits base acc (c ∷ cs) = elim (digit c) [
  | none ↦ none
  | some d ↦ let rest = digits base (acc * base + d) cs in if ltb d base then rest else none
]

-- `parseNumFromString<T>`, `T` of `w` bits: all of a nonempty string, and no overflow.
unfoldable pub parse_num_from_string : ℕ → ℕ → Str → Option ℕ
unfolding digits
parse_num_from_string w base [] = none
parse_num_from_string w base (c ∷ cs) = elim (digits base 0 (c ∷ cs)) [
  | none ↦ none
  | some n ↦ if ltb n (2 ^ w) then some n else none
]

pub record EndpointConfig : Type 0 where
  pub shm_name : Str
  pub slots : ℕ
  pub local_ipv4_be : ℕ
  pub peer_ipv4_be : ℕ
  pub data_port : ℕ
  pub batching_enabled : Bool
  pub next_hop_mac : List ℕ

-- The locals of `try_parse_endpoint_config`.
pub record ParseState : Type 0 where
  pub config : EndpointConfig
  pub shm_flag : Bool
  pub slots_flag : Bool
  pub local_ip_flag : Bool
  pub peer_ip_flag : Bool
  pub data_port_flag : Bool
  pub next_hop_mac_flag : Bool

abbrev pub initial : ParseState
initial = record {
  config = record {
    shm_name = [];
    slots = 0;
    local_ipv4_be = 0;
    peer_ipv4_be = 0;
    data_port = 0;
    batching_enabled = false;
    next_hop_mac = 0 ∷ 0 ∷ 0 ∷ 0 ∷ 0 ∷ 0 ∷ [];
  };
  shm_flag = false;
  slots_flag = false;
  local_ip_flag = false;
  peer_ip_flag = false;
  data_port_flag = false;
  next_hop_mac_flag = false;
}

-- What `next` makes of the argument behind the option; it refuses another option.
unfoldable pub next_value : Str → Option Str
next_value v =
    if ltb 1 (length v) && (get_or v 0 0 == 45 && get_or v 1 0 == 45) then none else some v

-- The branch of each option, by what `next` gives.
unfoldable pub parse_shm : ParseState → Option Str → Option ParseState
parse_shm st none = none
parse_shm st (some v) =
    if st.shm_flag
    then none
    else some (record st { config = record st.config { shm_name = v }; shm_flag = true })

unfoldable pub accept_slots : ParseState → Option ℕ → Option ParseState
accept_slots st none = none
accept_slots st (some slots) =
    if slots == 0 || not (bit_and (slots - 1) slots == 0)
    then none
    else some (record st { config = record st.config { slots = slots }; slots_flag = true })

unfoldable pub parse_slots : ParseState → Option Str → Option ParseState
unfolding accept_slots
parse_slots st none = none
parse_slots st (some v) =
    if st.slots_flag then none else accept_slots st (parse_num_from_string 32 10 v)

-- `parseIpArg`: the member's new value.
unfoldable pub parse_ip_arg : (Str → Option ℕ) → Bool → Option Str → Option ℕ
parse_ip_arg inet_pton ip_flag none = none
parse_ip_arg inet_pton ip_flag (some v) = if ip_flag then none else inet_pton v

unfoldable pub set_local_ip : ParseState → Option ℕ → Option ParseState
set_local_ip st none = none
set_local_ip st (some ip) =
    some (record st { config = record st.config { local_ipv4_be = ip }; local_ip_flag = true })

unfoldable pub set_peer_ip : ParseState → Option ℕ → Option ParseState
set_peer_ip st none = none
set_peer_ip st (some ip) =
    some (record st { config = record st.config { peer_ipv4_be = ip }; peer_ip_flag = true })

-- `parsePortArg`
unfoldable pub accept_port : ParseState → Option ℕ → Option ParseState
accept_port st none = none
accept_port st (some port) =
    if port == 0
    then none
    else some (record st { config = record st.config { data_port = port }; data_port_flag = true })

unfoldable pub parse_port_arg : ParseState → Option Str → Option ParseState
unfolding accept_port
parse_port_arg st none = none
parse_port_arg st (some v) =
    if st.data_port_flag then none else accept_port st (parse_num_from_string 16 10 v)

-- The octets from `octet_idx` on, `left` of them, with the colon behind each but the last.
unfoldable pub parse_octets : Str → ℕ → ℕ → Option (List ℕ)
parse_octets mac octet_idx zero = some []
parse_octets mac octet_idx (suc left) =
    let rest = parse_octets mac (octet_idx + 1) left in
    if ltb octet_idx 5 && not (get_or mac (octet_idx * 3 + 2) 0 == 58)
    then none
    else elim (parse_num_from_string 8 16 (take 2 (drop (octet_idx * 3) mac))) [
      | none ↦ none
      | some octet ↦ elim rest [ none ↦ none | some octets ↦ some (octet ∷ octets) ]
    ]

-- `zeroOctetsCount`
unfoldable pub zero_octets_count : List ℕ → ℕ
zero_octets_count [] = 0
zero_octets_count (o ∷ os) = if o == 0 then zero_octets_count os + 1 else zero_octets_count os

-- The tests behind the loop.
unfoldable pub accept_mac : ParseState → Option (List ℕ) → Option ParseState
unfolding zero_octets_count
accept_mac st none = none
accept_mac st (some octets) =
    if zero_octets_count octets == 6
    then none
    else if not (bit_and (get_or octets 0 0) 1 == 0)
    then none
    else some (record st {
      config = record st.config { next_hop_mac = octets };
      next_hop_mac_flag = true;
    })

unfoldable pub parse_next_hop_mac : ParseState → Option Str → Option ParseState
unfolding accept_mac
parse_next_hop_mac st none = none
parse_next_hop_mac st (some mac) =
    if st.next_hop_mac_flag
    then none
    else if not (length mac == 17)
    then none
    else accept_mac st (parse_octets mac 0 6)

-- The names of the options.
pub data OptionName : Type 0 where
  shm slots local_ip peer_ip data_port next_hop_mac batching unknown : OptionName

abbrev dashed : Str → Str
dashed s = 45 ∷ 45 ∷ s

unfoldable pub option_name : Str → OptionName
unfolding equals_ignore_case
option_name arg =
    if equals_ignore_case arg (dashed (115 ∷ 104 ∷ 109 ∷ []))
    then shm
    else if equals_ignore_case arg (dashed (115 ∷ 108 ∷ 111 ∷ 116 ∷ 115 ∷ []))
    then slots
    else if equals_ignore_case arg (dashed (108 ∷ 111 ∷ 99 ∷ 97 ∷ 108 ∷ 45 ∷ 105 ∷ 112 ∷ []))
    then local_ip
    else if equals_ignore_case arg (dashed (112 ∷ 101 ∷ 101 ∷ 114 ∷ 45 ∷ 105 ∷ 112 ∷ []))
    then peer_ip
    else if equals_ignore_case arg (dashed (100 ∷ 97 ∷ 116 ∷ 97 ∷ 45 ∷ 112 ∷ 111 ∷ 114 ∷ 116 ∷ []))
    then data_port
    else if equals_ignore_case arg
        (dashed (110 ∷ 101 ∷ 120 ∷ 116 ∷ 45 ∷ 104 ∷ 111 ∷ 112 ∷ 45 ∷ 109 ∷ 97 ∷ 99 ∷ []))
    then next_hop_mac
    else if equals_ignore_case arg (dashed (98 ∷ 97 ∷ 116 ∷ 99 ∷ 104 ∷ 105 ∷ 110 ∷ 103 ∷ []))
    then batching
    else unknown

-- Every option but `--batching` takes the next argument too.
unfoldable pub takes_value : OptionName → Bool
takes_value shm = true
takes_value slots = true
takes_value local_ip = true
takes_value peer_ip = true
takes_value data_port = true
takes_value next_hop_mac = true
takes_value batching = false
takes_value unknown = false

module _ (inet_pton : Str → Option ℕ) where
  -- The body of the loop over the arguments, with what `next` would give.
  unfoldable pub parse_option : ParseState → OptionName → Option Str → Option ParseState
  parse_option st shm next = parse_shm st next
  parse_option st slots next = parse_slots st next
  parse_option st local_ip next = set_local_ip st (parse_ip_arg inet_pton st.local_ip_flag next)
  parse_option st peer_ip next = set_peer_ip st (parse_ip_arg inet_pton st.peer_ip_flag next)
  parse_option st data_port next = parse_port_arg st next
  parse_option st next_hop_mac next = parse_next_hop_mac st next
  parse_option st batching next =
      some (record st { config = record st.config { batching_enabled = true } })
  parse_option st unknown next = none

  -- The loop, on the arguments from `argv[i]` on; a value that was taken is skipped.
  unfoldable pub parse_args : Option ParseState → List Str → Option ParseState
  unfolding parse_option
  parse_args none args = none
  parse_args (some st) [] = some st
  parse_args (some st) (arg ∷ []) = parse_option st (option_name arg) none
  parse_args (some st) (arg ∷ (v ∷ rest)) =
      let st' = parse_option st (option_name arg) (next_value v) in
      elim (takes_value (option_name arg)) [
        | true ↦ parse_args st' rest
        | false ↦ parse_args st' (v ∷ rest)
      ]

  unfoldable pub finish : Option ParseState → Option EndpointConfig
  finish none = none
  finish (some st) =
      if not st.shm_flag
        || (not st.slots_flag
            || (not st.local_ip_flag
                || (not st.peer_ip_flag || (not st.data_port_flag || not st.next_hop_mac_flag))))
      then none
      else some st.config

  -- `try_parse_endpoint_config`, on the arguments behind the program's name.
  unfoldable pub try_parse_endpoint_config : List Str → Option EndpointConfig
  unfolding parse_args finish
  try_parse_endpoint_config args = finish (parse_args (some initial) args)
