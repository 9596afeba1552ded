-- ===== src/Ports/Info.antt =====
-- src/dpdk/dpdk_port_info.cpp: the one port that an endpoint uses.
use low_latency_data_transfe.Base.{
  ℕ, List, [], ◌∷◌, Bool, true, false, ◌&&◌, ◌||◌, Option, none, some, ◌==◌, if◌then◌else◌,
}
use low_latency_data_transfe.Config.{Str}

-- What DPDK knows of the machine: the ports that `RTE_ETH_FOREACH_DEV` visits, and what it answers for
-- a port, a null pointer as no name and a negative socket as none.
pub record Environment : Type 0 where
  pub max_ethports : ℕ
  pub ports : List ℕ
  pub dev_info_get : ℕ → Option (Option Str)
  pub macaddr_get : ℕ → Option (List ℕ)
  pub dev_socket_id : ℕ → Option ℕ
  pub socket_id : ℕ

pub record DpdkPortInfo : Type 0 where
  pub port_id : ℕ
  pub driver_name : Str
  pub eth_addr : List ℕ
  pub socket_id : ℕ

-- `net_ena` and `net_virtio`
abbrev pub net_ena : Str
net_ena = 110 ∷ 101 ∷ 116 ∷ 95 ∷ 101 ∷ 110 ∷ 97 ∷ []

abbrev pub net_virtio : Str
net_virtio = 110 ∷ 101 ∷ 116 ∷ 95 ∷ 118 ∷ 105 ∷ 114 ∷ 116 ∷ 105 ∷ 111 ∷ []

unfoldable pub same_string : Str → Str → Bool
same_string [] [] = true
same_string [] (b ∷ bs) = false
same_string (a ∷ rest) [] = false
same_string (a ∷ rest) (b ∷ bs) = a == b && same_string rest bs

unfoldable pub select_port : ℕ → ℕ → List ℕ → Option ℕ
select_port max selected [] = if selected == max then none else some selected
select_port max selected (p ∷ ports) = if selected == max then select_port max p ports else none

module _ (env : Environment) where
  -- From `rte_eth_macaddr_get` on.
  unfoldable pub with_driver : ℕ → Str → Option DpdkPortInfo
  with_driver port_id driver_name = elim (env.macaddr_get port_id) [
    | none ↦ none
    | some eth_addr ↦ some (record {
      port_id = port_id;
      driver_name = driver_name;
      eth_addr = eth_addr;
      socket_id = elim (env.dev_socket_id port_id) [ none ↦ env.socket_id | some socket ↦ socket ];
    })
  ]

  -- The test of the driver's name.
  unfoldable pub with_dev_info : ℕ → Option (Option Str) → Option DpdkPortInfo
  unfolding with_driver same_string
  with_dev_info port_id none = none
  with_dev_info port_id (some none) = none
  with_dev_info port_id (some (some driver_name)) =
      if same_string driver_name net_ena || same_string driver_name net_virtio
      then with_driver port_id driver_name
      else none

  unfoldable pub try_get_dpdk_port_info : Option DpdkPortInfo
  unfolding with_dev_info select_port
  try_get_dpdk_port_info = elim (select_port env.max_ethports env.max_ethports env.ports) [
    | none ↦ none
    | some port_id ↦ with_dev_info port_id (env.dev_info_get port_id)
  ]
