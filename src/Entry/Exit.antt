-- ===== src/Entry/Exit.antt =====
-- When the two programs end with status 0, and what their loops have left then.
use low_latency_data_transfe.Base.{
  ℕ, ◌≡◌, List, Bool, true, false, ◌&&◌, Bool-cases, Option, Option-cases, some, arith, drop, inl,
  inr, refl, sym, subst,
}
use low_latency_data_transfe.Bytes.Order.{ByteOrder}
use low_latency_data_transfe.Config.{Str, EndpointConfig, try_parse_endpoint_config}
use low_latency_data_transfe.Ports.{Attempt}
use low_latency_data_transfe.Ports.Info.{DpdkPortInfo, try_get_dpdk_port_info}
use low_latency_data_transfe.Ports.Rx
use low_latency_data_transfe.Ports.Tx
use low_latency_data_transfe.Message.{Profile}
use low_latency_data_transfe.Parser.{Mbuf}
use low_latency_data_transfe.Ring.{Region}
use low_latency_data_transfe.Receiver.{ReceiverState}
use low_latency_data_transfe.Sender.{Turn, SenderEnd}
use low_latency_data_transfe.Entry.{
  Endpoint, returned, exited, Host, Runtime, open_segment, with_tx_port, run_sender_endpoint,
  with_writer, run_receiver_endpoint, conclude, main, sender_main, sender_loop, receiver_main,
  receiver_loop,
}

-- What an endpoint needs for result 0: `ready` is its port's `try_initialize`, `create` the flag with
-- which it opens its segment, and `left` what its loop leaves.
pub record Served {A : Type 0} (host : Host) (frame_cap : ℕ) (create : Bool)
    (ready : DpdkPortInfo → Attempt) (loop : EndpointConfig → Region → A) (err : A → ℕ)
    (args : List Str) (left : Option A) : Type 0 where
  pub config : EndpointConfig
  pub parsed : try_parse_endpoint_config host.inet_pton args ≡ some config
  pub info : DpdkPortInfo
  pub found : try_get_dpdk_port_info host.env ≡ some info
  pub set_up : (ready info).ok ≡ true
  pub region : Region
  pub opened : open_segment host frame_cap create config ≡ some region
  pub ran : err (loop config region) ≡ 0
  pub leaves : left ≡ some (loop config region)

-- A run of a program in which nothing fails, its endpoint included.
pub record Completes (runtime : Runtime) (Good : List Str → Type 0) (args : List Str) : Type 0 where
  pub eal_argc : ℕ
  pub initialized : runtime.eal_init ≡ some eal_argc
  pub sigterm : runtime.sigterm ≡ true
  pub sigint : runtime.sigint ≡ true
  pub served : Good (drop eal_argc args)
  pub cleaned : runtime.cleanup_result ≡ 0

module _ {A : Type 0} where
  -- An endpoint that came back with result 0.
  abbrev Succeeds : Endpoint A → Option A → Type 0
  Succeeds (returned result left' calls) left = (result ≡ 0) × (left ≡ left')
  Succeeds (exited calls) left = ⊥

  conclude-status :
      (runtime : Runtime) (e : Endpoint A)
      → (conclude runtime e).status ≡ 0
      → Succeeds e (conclude runtime e).left × (runtime.cleanup_result ≡ 0)
  unfolding conclude
  conclude-status runtime (returned result left calls) e = ((ground arith, refl), ground arith)
  conclude-status runtime (exited calls) e = absurd (ground arith)

  conclude-zero :
      (runtime : Runtime) (e : Endpoint A) (left : Option A)
      → Succeeds e left
      → runtime.cleanup_result ≡ 0
      → ((conclude runtime e).status ≡ 0) × ((conclude runtime e).left ≡ left)
  unfolding conclude
  conclude-zero runtime (returned result left' calls) left good clean =
      (ground (arith, good.0), sym good.1)
  conclude-zero runtime (exited calls) left good clean = absurd good

-- `main` over any endpoint.
module _ {A : Type 0} (runtime : Runtime) (run : List Str → Endpoint A)
    (Good : List Str → Option A → Type 0)
    (sound : (xs : List Str) (left : Option A) → Succeeds (run xs) left → Good xs left)
    (complete : (xs : List Str) (left : Option A) → Good xs left → Succeeds (run xs) left)
    (args : List Str) (left : Option A) where
  completed :
      (main runtime run args).status ≡ 0
      → (main runtime run args).left ≡ left
      → Completes runtime (λ xs. Good xs left) args
  unfolding main
  completed e l = elim (Option-cases runtime.eal_init) [
    | inl failed ↦ absurd (ground (arith, rw (failed, main) at e))
    | inr (eal_argc, initialized) ↦ elim (Bool-cases (runtime.sigterm && runtime.sigint)) [
      | inr unhandled ↦ absurd (ground (arith, rw (initialized, unhandled, main) at e))
      | inl handled ↦
          let (good, clean) =
            conclude-status runtime (run (drop eal_argc args))
              (rw (initialized, handled, main) at e) in
          record {
            eal_argc = eal_argc;
            initialized = initialized;
            sigterm = ground (arith, handled);
            sigint = ground (arith, handled);
            served = sound (drop eal_argc args) left (
                subst (Succeeds (run (drop eal_argc args))) (rw (initialized, handled, main) at l)
                  good);
            cleaned = clean;
          }
    ]
  ]

  completes :
      Completes runtime (λ xs. Good xs left) args
      → ((main runtime run args).status ≡ 0) × ((main runtime run args).left ≡ left)
  unfolding main
  completes v =
      rw (v.initialized, v.sigterm, v.sigint, main)
        (conclude-zero runtime (run (drop v.eal_argc args)) left
          (complete (drop v.eal_argc args) left v.served) v.cleaned)

module _ {A : Type 0} (host : Host) (frame_cap : ℕ) (loop : EndpointConfig → Region → A)
    (err : A → ℕ) (args : List Str) (left : Option A) where
  abbrev tx : DpdkPortInfo → Attempt
  tx info = Tx.try_initialize host.answers info.port_id info.socket_id

  abbrev rx : DpdkPortInfo → Attempt
  rx info = Rx.try_initialize host.answers info.port_id info.socket_id

  run_sender_endpoint-Served :
      Succeeds (run_sender_endpoint host frame_cap loop err args) left
      → Served host frame_cap false tx loop err args left
  unfolding run_sender_endpoint with_tx_port
  run_sender_endpoint-Served e =
      elim (Option-cases (try_parse_endpoint_config host.inet_pton args)) [
        | inl unparsed ↦ absurd (ground (arith, rw (unparsed, run_sender_endpoint) at e))
        | inr (config, parsed) ↦ elim (Option-cases (try_get_dpdk_port_info host.env)) [
          | inl no_port ↦ absurd (ground (arith, rw (parsed, no_port, run_sender_endpoint) at e))
          | inr (info, found) ↦ elim (Bool-cases (tx info).ok) [
            | inr bad ↦
                absurd
                  (ground (arith, rw (parsed, found, bad, run_sender_endpoint, with_tx_port) at e))
            | inl ok ↦ elim (Option-cases (open_segment host frame_cap false config)) [
              | inl shut ↦
                  absurd (rw (parsed, found, ok, shut, run_sender_endpoint, with_tx_port) at e)
              | inr (region, opened) ↦
                  let (ran, leaves) =
                    rw (parsed, found, ok, opened, run_sender_endpoint, with_tx_port) at e in
                  record {
                    config = config;
                    parsed = parsed;
                    info = info;
                    found = found;
                    set_up = ok;
                    region = region;
                    opened = opened;
                    ran = ran;
                    leaves = leaves;
                  }
            ]
          ]
        ]
      ]

  run_sender_endpoint-Succeeds :
      Served host frame_cap false tx loop err args left
      → Succeeds (run_sender_endpoint host frame_cap loop err args) left
  unfolding run_sender_endpoint with_tx_port
  run_sender_endpoint-Succeeds v =
      rw (v.parsed, v.found, v.set_up, v.opened, run_sender_endpoint, with_tx_port)
        (v.ran, v.leaves)

  run_receiver_endpoint-Served :
      Succeeds (run_receiver_endpoint host frame_cap loop err args) left
      → Served host frame_cap true rx loop err args left
  unfolding run_receiver_endpoint with_writer
  run_receiver_endpoint-Served e =
      elim (Option-cases (try_parse_endpoint_config host.inet_pton args)) [
        | inl unparsed ↦ absurd (ground (arith, rw (unparsed, run_receiver_endpoint) at e))
        | inr (config, parsed) ↦ elim (Option-cases (try_get_dpdk_port_info host.env)) [
          | inl no_port ↦ absurd (ground (arith, rw (parsed, no_port, run_receiver_endpoint) at e))
          | inr (info, found) ↦ elim (Option-cases (open_segment host frame_cap true config)) [
            | inl shut ↦ absurd (rw (parsed, found, shut, run_receiver_endpoint) at e)
            | inr (region, opened) ↦ elim (Bool-cases (rx info).ok) [
              | inr bad ↦ absurd (
                  ground (
                    arith,
                    rw (parsed, found, opened, bad, run_receiver_endpoint, with_writer) at e,
                  ))
              | inl ok ↦
                  let (ran, leaves) =
                    rw (parsed, found, opened, ok, run_receiver_endpoint, with_writer) at e in
                  record {
                    config = config;
                    parsed = parsed;
                    info = info;
                    found = found;
                    set_up = ok;
                    region = region;
                    opened = opened;
                    ran = ran;
                    leaves = leaves;
                  }
            ]
          ]
        ]
      ]

  run_receiver_endpoint-Succeeds :
      Served host frame_cap true rx loop err args left
      → Succeeds (run_receiver_endpoint host frame_cap loop err args) left
  unfolding run_receiver_endpoint with_writer
  run_receiver_endpoint-Succeeds v =
      rw (v.parsed, v.found, v.opened, v.set_up, run_receiver_endpoint, with_writer)
        (v.ran, v.leaves)

-- The sender's program, and the receiver's, as runs in which nothing fails.
abbrev pub SenderCompletes :
    Profile → Runtime → Host → List Turn → List Str → Option SenderEnd → Type 0
SenderCompletes p runtime host turns args left =
    Completes runtime
      (λ xs.
        Served host p.max_frame false
          (λ info. Tx.try_initialize host.answers info.port_id info.socket_id) (sender_loop p turns)
          (λ end. end.err) xs left)
      args

abbrev pub ReceiverCompletes :
    Profile
    → ByteOrder
    → Runtime
    → Host
    → List (List Mbuf)
    → List Str
    → Option ReceiverState
    → Type 0
ReceiverCompletes p order runtime host bursts args left =
    Completes runtime
      (λ xs.
        Served host p.max_frame true
          (λ info. Rx.try_initialize host.answers info.port_id info.socket_id)
          (receiver_loop p order bursts) (λ st. 0) xs left)
      args

-- The sender's program ends with status 0 exactly if the EAL starts, both signals are handled, the
-- arguments behind the EAL's parse, the one port is found and set up, the segment opens, the loop
-- has no error and the EAL is cleaned up; what is left is then what `sender_loop` left of the segment.
pub sender_main-Completes :
    (p : Profile) (runtime : Runtime) (host : Host) (turns : List Turn) (args : List Str)
    (left : Option SenderEnd)
    → let end = sender_main p runtime host turns args in
      ((end.status ≡ 0) × (end.left ≡ left) → SenderCompletes p runtime host turns args left)
      × (SenderCompletes p runtime host turns args left → (end.status ≡ 0) × (end.left ≡ left))
unfolding sender_main
sender_main-Completes p runtime host turns args left =
    let sound =
      run_sender_endpoint-Served host p.max_frame (sender_loop p turns) (λ end. end.err) in
    let complete =
      run_sender_endpoint-Succeeds host p.max_frame (sender_loop p turns) (λ end. end.err) in
    (
      λ e. completed runtime _ _ sound complete args left e.0 e.1,
      completes runtime _ _ sound complete args left,
    )

-- The receiver's program ends with status 0 exactly if the EAL starts, both signals are handled, the
-- arguments behind the EAL's parse, the one port is found, the segment opens, the port is set up
-- and the EAL is cleaned up; what is left is then what `receiver_loop` left of the segment.
pub receiver_main-Completes :
    (p : Profile) (order : ByteOrder) (runtime : Runtime) (host : Host) (bursts : List (List Mbuf))
    (args : List Str) (left : Option ReceiverState)
    → let end = receiver_main p order runtime host bursts args in
      ((end.status ≡ 0) × (end.left ≡ left)
        → ReceiverCompletes p order runtime host bursts args left)
      × (ReceiverCompletes p order runtime host bursts args left
          → (end.status ≡ 0) × (end.left ≡ left))
unfolding receiver_main
receiver_main-Completes p order runtime host bursts args left =
    let sound =
      run_receiver_endpoint-Served host p.max_frame (receiver_loop p order bursts) (λ st. 0) in
    let complete =
      run_receiver_endpoint-Succeeds host p.max_frame (receiver_loop p order bursts) (λ st. 0) in
    (
      λ e. completed runtime _ _ sound complete args left e.0 e.1,
      completes runtime _ _ sound complete args left,
    )
