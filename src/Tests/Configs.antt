-- ===== src/Tests/Configs.antt =====
-- A command line: `--SHM /x --slots 8 --batching --local-ip 1 --peer-ip 2 --data-port 443
-- --next-hop-mac 02:00:00:00:00:aF`, where an address is a single character.
use low_latency_data_transfe.Base.{ℕ, ◌≡◌, refl, List, [], ◌∷◌, Option, none, some, true}
use low_latency_data_transfe.Config.{
  Str, EndpointConfig, equals_ignore_case, equal_lower, tolower, digit, digits,
  parse_num_from_string, next_value, parse_shm, accept_slots, parse_slots, parse_ip_arg,
  set_local_ip, set_peer_ip, accept_port, parse_port_arg, parse_octets, zero_octets_count,
  accept_mac, parse_next_hop_mac, option_name, takes_value, parse_option, parse_args, finish,
  try_parse_endpoint_config,
}
use low_latency_data_transfe.Config
use low_latency_data_transfe.Config.Valid.{IsConfig, try_parse_endpoint_config-IsConfig}

abbrev pub args : List Str
args =
    (45 ∷ 45 ∷ 83 ∷ 72 ∷ 77 ∷ [])
    ∷ (47 ∷ 120 ∷ [])
    ∷ (45 ∷ 45 ∷ 115 ∷ 108 ∷ 111 ∷ 116 ∷ 115 ∷ [])
    ∷ (56 ∷ [])
    ∷ (45 ∷ 45 ∷ 98 ∷ 97 ∷ 116 ∷ 99 ∷ 104 ∷ 105 ∷ 110 ∷ 103 ∷ [])
    ∷ (45 ∷ 45 ∷ 108 ∷ 111 ∷ 99 ∷ 97 ∷ 108 ∷ 45 ∷ 105 ∷ 112 ∷ [])
    ∷ (49 ∷ [])
    ∷ (45 ∷ 45 ∷ 112 ∷ 101 ∷ 101 ∷ 114 ∷ 45 ∷ 105 ∷ 112 ∷ [])
    ∷ (50 ∷ [])
    ∷ (45 ∷ 45 ∷ 100 ∷ 97 ∷ 116 ∷ 97 ∷ 45 ∷ 112 ∷ 111 ∷ 114 ∷ 116 ∷ [])
    ∷ (52 ∷ 52 ∷ 51 ∷ [])
    ∷ (45 ∷ 45 ∷ 110 ∷ 101 ∷ 120 ∷ 116 ∷ 45 ∷ 104 ∷ 111 ∷ 112 ∷ 45 ∷ 109 ∷ 97 ∷ 99 ∷ [])
    ∷ (48 ∷ 50 ∷ 58 ∷ 48 ∷ 48 ∷ 58 ∷ 48 ∷ 48 ∷ 58 ∷ 48 ∷ 48 ∷ 58 ∷ 48 ∷ 48 ∷ 58 ∷ 97 ∷ 70 ∷ [])
    ∷ []

abbrev pub inet_pton : Str → Option ℕ
inet_pton [] = none
inet_pton (c ∷ cs) = some c

abbrev pub config : EndpointConfig
config = record {
  shm_name = 47 ∷ 120 ∷ [];
  slots = 8;
  local_ipv4_be = 49;
  peer_ipv4_be = 50;
  data_port = 443;
  batching_enabled = true;
  next_hop_mac = 2 ∷ 0 ∷ 0 ∷ 0 ∷ 0 ∷ 0xaf ∷ [];
}

pub accepted : try_parse_endpoint_config inet_pton args ≡ some config
unfolding try_parse_endpoint_config equals_ignore_case equal_lower tolower digit digits
    parse_num_from_string next_value parse_shm accept_slots parse_slots parse_ip_arg set_local_ip
    set_peer_ip accept_port parse_port_arg parse_octets zero_octets_count accept_mac
    parse_next_hop_mac option_name takes_value parse_option parse_args finish
accepted = refl

-- A slot count of 6 is refused.
six_slots : parse_slots Config.initial (some (54 ∷ [])) ≡ none
unfolding parse_slots accept_slots parse_num_from_string digits digit
six_slots = refl

try_parse_endpoint_config-IsConfig_example : IsConfig inet_pton config
try_parse_endpoint_config-IsConfig_example =
    try_parse_endpoint_config-IsConfig inet_pton config args accepted
