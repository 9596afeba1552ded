-- ===== src/Entry.antt =====
-- `main`, and `run_sender` and `run_receiver` around their loops, of src/sender_main.cpp and
-- src/receiver_main.cpp. The printing of counters does not change what is returned.
pub mod Exit
use low_latency_data_transfe.Base.{
  ℕ, List, [], ◌∷◌, ◌++◌, Bool, true, false, ◌&&◌, Option, none, some, ◌==◌, if◌then◌else◌, drop,
  replicate,
}
use low_latency_data_transfe.Bytes.Order.{ByteOrder}
use low_latency_data_transfe.Message.{Profile}
use low_latency_data_transfe.Ring.{Region, region_size, attach}
use low_latency_data_transfe.Config.{Str, EndpointConfig, try_parse_endpoint_config}
use low_latency_data_transfe.Parser.{Mbuf}
use low_latency_data_transfe.Reader.{sender_shm_reader}
use low_latency_data_transfe.Sender.{Turn, SenderEnd, start_sender, run_sender}
use low_latency_data_transfe.Receiver.{ReceiverState, start_receiver, run_receiver}
use low_latency_data_transfe.Ports.{Call, Attempt, destroy}
use low_latency_data_transfe.Ports.Info.{Environment, DpdkPortInfo, try_get_dpdk_port_info}
use low_latency_data_transfe.Ports.Rx
use low_latency_data_transfe.Ports.Tx

-- How an endpoint comes back to `main`, with what its loop left and the calls on its port: with a
-- result, or not at all, since `shm::Segment::open` calls `std::exit(1)` on failure.
pub data Endpoint (A : Type 0) : Type 0 where
  returned : ℕ → Option A → List Call → Endpoint A
  exited : List Call → Endpoint A

-- What the endpoint meets: `inet_pton`, the devices, the answers of their calls, and the memory that
-- `shm::Segment::open` maps for a name, a size and the flag `create`, unless it exits.
pub record Host : Type 0 where
  pub inet_pton : Str → Option ℕ
  pub env : Environment
  pub answers : Call → Bool
  pub opens : Str → ℕ → Bool → Option Region

-- The segment of a configuration.
abbrev pub open_segment : Host → ℕ → Bool → EndpointConfig → Option Region
open_segment host frame_cap create config =
    host.opens config.shm_name (region_size frame_cap config.slots) create

module _ {A : Type 0} (host : Host) (frame_cap : ℕ) (loop : EndpointConfig → Region → A)
    (err : A → ℕ) where
  -- With the port set up: the reader is opened, the loop run, and the port destroyed.
  unfoldable pub with_tx_port : EndpointConfig → ℕ → Attempt → Endpoint A
  with_tx_port config port_id port =
      if port.ok
      then (elim (open_segment host frame_cap false config) [
        | none ↦ exited port.calls
        | some region ↦
            let left = loop config region in
            returned (err left) (some left) (port.calls ++ destroy port_id port)
      ])
      else returned 1 none (port.calls ++ destroy port_id port)

  -- `run_sender`, over its loop and what that leaves in `err`.
  unfoldable pub run_sender_endpoint : List Str → Endpoint A
  unfolding with_tx_port
  run_sender_endpoint args = elim (try_parse_endpoint_config host.inet_pton args) [
    | none ↦ returned 1 none []
    | some config ↦ elim (try_get_dpdk_port_info host.env) [
      | none ↦ returned 1 none []
      | some info ↦
          with_tx_port config info.port_id
            (Tx.try_initialize host.answers info.port_id info.socket_id)
    ]
  ]

  -- With the writer opened: the port is set up, the loop run, and the port destroyed.
  unfoldable pub with_writer : EndpointConfig → Region → ℕ → Attempt → Endpoint A
  with_writer config region port_id port =
      if port.ok
      then (let left = loop config region in
          returned (err left) (some left) (port.calls ++ destroy port_id port))
      else returned 1 none (port.calls ++ destroy port_id port)

  -- `run_receiver`: the writer is opened before the port is set up.
  unfoldable pub run_receiver_endpoint : List Str → Endpoint A
  unfolding with_writer
  run_receiver_endpoint args = elim (try_parse_endpoint_config host.inet_pton args) [
    | none ↦ returned 1 none []
    | some config ↦ elim (try_get_dpdk_port_info host.env) [
      | none ↦ returned 1 none []
      | some info ↦ elim (open_segment host frame_cap true config) [
        | none ↦ exited []
        | some region ↦
            with_writer config region info.port_id
              (Rx.try_initialize host.answers info.port_id info.socket_id)
      ]
    ]
  ]

-- What the runtime answers to `main`: the number of arguments that the EAL took, or a failure, and
-- the results of the two `sigaction` and of `rte_eal_cleanup`.
pub record Runtime : Type 0 where
  pub eal_init : Option ℕ
  pub sigterm : Bool
  pub sigint : Bool
  pub cleanup_result : ℕ

pub data Step : Type 0 where
  eal_init sigaction eal_cleanup : Step
  device : Call → Step

abbrev pub device_steps : List Call → List Step
device_steps [] = []
device_steps (c ∷ calls) = device c ∷ device_steps calls

-- The exit status of the process, what the loop left, and what the process did.
pub record Ended (A : Type 0) : Type 0 where
  pub status : ℕ
  pub left : Option A
  pub steps : List Step

module _ {A : Type 0} where
  -- From the endpoint's return on.
  unfoldable pub conclude : Runtime → Endpoint A → Ended A
  conclude runtime (returned result left calls) = record {
    status = if result == 0 then (if runtime.cleanup_result == 0 then 0 else 1) else 1;
    left = left;
    steps = eal_init ∷ (sigaction ∷ (device_steps calls ++ eal_cleanup ∷ []));
  }
  conclude runtime (exited calls) = record {
    status = 1;
    left = none;
    steps = eal_init ∷ (sigaction ∷ device_steps calls);
  }

  -- `main` of either program; `args` are the arguments behind the program's name.
  unfoldable pub main : Runtime → (List Str → Endpoint A) → List Str → Ended A
  unfolding conclude
  main runtime run args = elim runtime.eal_init [
    | none ↦ record { status = 1; left = none; steps = eal_init ∷ [] }
    | some eal_argc ↦
        if runtime.sigterm && runtime.sigint
        then conclude runtime (run (drop eal_argc args))
        else record { status = 1; left = none; steps = eal_init ∷ (sigaction ∷ (eal_cleanup ∷ [])) }
  ]

-- The sender's loop on the segment that it opened: a reader with a zeroed buffer, at the edge. Where
-- the passes do not get to the loop's end, `ended` says so, and `err` is what it is so far.
unfoldable pub sender_loop : Profile → List Turn → EndpointConfig → Region → SenderEnd
sender_loop p turns config region =
    let (attached, mask) = attach p.max_frame region config.slots false in
    run_sender p mask config.batching_enabled
      (start_sender (sender_shm_reader attached (replicate p.max_frame 0))) turns

-- The receiver's loop on the segment that it created.
unfoldable pub receiver_loop :
    Profile → ByteOrder → List (List Mbuf) → EndpointConfig → Region → ReceiverState
receiver_loop p order bursts config region =
    let (attached, mask) = attach p.max_frame region config.slots true in
    run_receiver p order mask (start_receiver attached) bursts

-- The two programs, over what their loops meet.
unfoldable pub sender_main : Profile → Runtime → Host → List Turn → List Str → Ended SenderEnd
unfolding main run_sender_endpoint
sender_main p runtime host turns args =
    main runtime (run_sender_endpoint host p.max_frame (sender_loop p turns) (λ end. end.err)) args

unfoldable pub receiver_main :
    Profile → ByteOrder → Runtime → Host → List (List Mbuf) → List Str → Ended ReceiverState
unfolding main run_receiver_endpoint
receiver_main p order runtime host bursts args =
    main runtime (run_receiver_endpoint host p.max_frame (receiver_loop p order bursts) (λ st. 0))
      args
