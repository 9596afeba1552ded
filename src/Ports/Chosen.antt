-- ===== src/Ports/Chosen.antt =====
-- When there is a port to use, and which.
use mathlib.Core.Path.{ap₂}
use mathlib.Core.Option.{some-injective}
use low_latency_data_transfe.Base.{
  ℕ, ◌<◌, ◌≡◌, refl, sym, ap, ◌∙◌, subst, List, [], ◌∷◌, true, ◌||◌, Bool-cases, Option,
  Option-cases, none, some, arith, ◌==◌, ==_iff, inl, inr, ◌⊎◌,
}
use low_latency_data_transfe.Config.{Str}
use low_latency_data_transfe.Ports.Info.{
  Environment, DpdkPortInfo, net_ena, net_virtio, same_string, select_port, with_driver,
  with_dev_info, try_get_dpdk_port_info,
}

-- The port that the description speaks of is the only one, and has a driver that is supported.
pub record IsChosen (env : Environment) (info : DpdkPortInfo) : Type 0 where
  pub only : env.ports ≡ info.port_id ∷ []
  pub driver : env.dev_info_get info.port_id ≡ some (some info.driver_name)
  pub supported : (info.driver_name ≡ net_ena) ⊎ (info.driver_name ≡ net_virtio)
  pub mac : env.macaddr_get info.port_id ≡ some info.eth_addr
  pub socket :
      (env.dev_socket_id info.port_id ≡ some info.socket_id)
      ⊎ ((env.dev_socket_id info.port_id ≡ none) × (info.socket_id ≡ env.socket_id))

-- Ports are numbered from 0 below `RTE_MAX_ETHPORTS`.
abbrev pub AllBelow : ℕ → List ℕ → Type 0
AllBelow max [] = Unit {0}
AllBelow max (p ∷ ports) = (p < max) × AllBelow max ports

same_string_sound : (a b : Str) → same_string a b ≡ true → a ≡ b
unfolding same_string
same_string_sound [] [] e = refl
same_string_sound [] (y ∷ b) e = ground arith
same_string_sound (x ∷ a) [] e = ground arith
same_string_sound (x ∷ a) (y ∷ b) e = elim (Bool-cases (x == y)) [
  | inl same ↦ ap₂ (◌∷◌) ((==_iff x y).0 same) (same_string_sound a b (simp same at e))
  | inr differ ↦ absurd (ground (arith, e, differ))
]

select_port_sound :
    (max p : ℕ) (ports : List ℕ)
    → AllBelow max ports
    → select_port max max ports ≡ some p
    → ports ≡ p ∷ []
unfolding select_port
select_port_sound max p [] below e = absurd (ground arith)
select_port_sound max p (q ∷ []) below e = ap (λ x. x ∷ []) (ground (arith, below.0))
select_port_sound max p (q ∷ (r ∷ ports)) below e = absurd (ground (arith, below.0))

select_port_complete : (max p : ℕ) → p < max → select_port max max (p ∷ []) ≡ some p
unfolding select_port
select_port_complete max p below = ground arith

module _ (env : Environment) where
  -- The two ways to a socket.
  with_driver_sound :
      (port_id : ℕ) (name : Str) (info : DpdkPortInfo)
      → env.ports ≡ port_id ∷ []
      → env.dev_info_get port_id ≡ some (some name)
      → (name ≡ net_ena) ⊎ (name ≡ net_virtio)
      → with_driver env port_id name ≡ some info
      → IsChosen env info
  unfolding with_driver
  with_driver_sound port_id name info only driver supported e =
      elim (Option-cases (env.macaddr_get port_id)) [
        | inl unknown ↦ absurd (ground (arith, e, unknown))
        | inr (mac, known) ↦
            subst (IsChosen env) (some-injective _ _ (rw (known, with_driver) at e)) (record {
              only = only;
              driver = driver;
              supported = supported;
              mac = known;
              socket = elim (Option-cases (env.dev_socket_id port_id)) [
                | inl anywhere ↦ inr (anywhere, simp anywhere refl)
                | inr (socket, there) ↦ inl (simp there refl)
              ];
            })
      ]

  with_dev_info_sound :
      (port_id : ℕ) (answer : Option (Option Str)) (info : DpdkPortInfo)
      → env.ports ≡ port_id ∷ []
      → env.dev_info_get port_id ≡ answer
      → with_dev_info env port_id answer ≡ some info
      → IsChosen env info
  unfolding with_dev_info
  with_dev_info_sound port_id none info only driver e = absurd (ground arith)
  with_dev_info_sound port_id (some none) info only driver e = absurd (ground arith)
  with_dev_info_sound port_id (some (some name)) info only driver e =
      elim (Bool-cases (same_string name net_ena)) [
        | inl ena ↦
            with_driver_sound port_id name info only driver
              (inl (same_string_sound name net_ena ena)) (simp ena at e)
        | inr other ↦ elim (Bool-cases (same_string name net_virtio)) [
          | inl virtio ↦
              with_driver_sound port_id name info only driver
                (inr (same_string_sound name net_virtio virtio)) (simp (other, virtio) at e)
          | inr unsupported ↦ absurd (ground (arith, e, other, unsupported))
        ]
      ]

  with_driver_complete :
      (info : DpdkPortInfo)
      → IsChosen env info
      → with_driver env info.port_id info.driver_name ≡ some info
  unfolding with_driver
  with_driver_complete info v =
      rw (v.mac, with_driver)
        (elim v.socket [
          | inl there ↦ simp there refl
          | inr (anywhere, same) ↦ simp (anywhere, sym same) refl
        ])

  with_dev_info_complete :
      (info : DpdkPortInfo)
      → IsChosen env info
      → with_dev_info env info.port_id (env.dev_info_get info.port_id) ≡ some info
  unfolding with_dev_info
  with_dev_info_complete info v =
      simp (v.driver, is_supported v.supported) (with_driver_complete info v)
    where
      is_supported :
          (info.driver_name ≡ net_ena) ⊎ (info.driver_name ≡ net_virtio)
          → (same_string info.driver_name net_ena || same_string info.driver_name net_virtio) ≡ true
      is_supported (inl ena) = simp ena refl
      is_supported (inr virtio) = simp virtio refl

  -- With ports numbered below RTE_MAX_ETHPORTS, a description is what try_get_dpdk_port_info returns
  -- exactly if its port is the only one there is, has the driver net_ena or net_virtio, and the
  -- description has the port's driver, MAC address and socket, the caller's socket standing in
  -- where the port's is not known.
  pub try_get_dpdk_port_info_iff :
      AllBelow env.max_ethports env.ports
      → (info : DpdkPortInfo)
      → (try_get_dpdk_port_info env ≡ some info → IsChosen env info)
        × (IsChosen env info → try_get_dpdk_port_info env ≡ some info)
  unfolding try_get_dpdk_port_info
  try_get_dpdk_port_info_iff below info = (sound, complete)
    where
      sound : try_get_dpdk_port_info env ≡ some info → IsChosen env info
      sound e = elim (Option-cases (select_port env.max_ethports env.max_ethports env.ports)) [
        | inl no_port ↦ absurd (ground (arith, e, no_port))
        | inr (port_id, chosen) ↦
            with_dev_info_sound port_id (env.dev_info_get port_id) info
              (select_port_sound env.max_ethports port_id env.ports below chosen) refl
              (rw (chosen, try_get_dpdk_port_info) at e)
      ]

      complete : IsChosen env info → try_get_dpdk_port_info env ≡ some info
      complete v =
          let below' : info.port_id < env.max_ethports =
            (subst (AllBelow env.max_ethports) v.only below).0 in
          rw
            (
              ap (select_port env.max_ethports env.max_ethports) v.only
                  ∙ select_port_complete env.max_ethports info.port_id below',
              try_get_dpdk_port_info,
            )
            (with_dev_info_complete info v)
