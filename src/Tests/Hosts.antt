-- ===== src/Tests/Hosts.antt =====
-- The two programs on a machine with one ENA port.
use mathlib.Core.Option.{some-injective}
use low_latency_data_transfe.Base.{
  ℕ, zero, suc, ◌+◌, ◌-◌, ◌*◌, ◌/◌, ◌<◌, ◌≡◌, refl, ap, ◌∙◌, subst, List, [], ◌∷◌, true, some, none,
  arith, length, replicate, length-replicate, get_or, append-nil, inl, inr,
}
use low_latency_data_transfe.Message.Compact.{compact, compact-IsProfile, load_header, frame_size}
use low_latency_data_transfe.Ports.Rx
use low_latency_data_transfe.Ports.Tx
use low_latency_data_transfe.Ports.Info.{Environment, DpdkPortInfo, net_ena, try_get_dpdk_port_info}
use low_latency_data_transfe.Ports.Chosen.{IsChosen, try_get_dpdk_port_info_iff}
use low_latency_data_transfe.Parser.{Mbuf}
use low_latency_data_transfe.Builder.{raw_data_packet_builder, try_append, finalize}
use low_latency_data_transfe.Ring.{
  Region, region_size, no_slot, read, copy_frame, attach, publish, reset_seqs,
}
use low_latency_data_transfe.Ring.Window.{IsRing}
use low_latency_data_transfe.Reader
use low_latency_data_transfe.Reader.{sender_shm_reader, try_read}
use low_latency_data_transfe.Receiver.{ReceiverState}
use low_latency_data_transfe.Sender
use low_latency_data_transfe.Sender.{SenderEnd, run_sender, fill_batch}
use low_latency_data_transfe.Sender.Run.{Emitted}
use low_latency_data_transfe.Entry.{
  Host, Runtime, sender_loop, sender_main, receiver_loop, receiver_main,
}
use low_latency_data_transfe.Entry.Exit.{
  SenderCompletes, ReceiverCompletes, sender_main-Completes, receiver_main-Completes,
}
use low_latency_data_transfe.Pipeline.Channel.{channel, delivered}
use low_latency_data_transfe.Ring.Attach.{MapsWhole}
use low_latency_data_transfe.Pipeline.Programs.{programs_deliver}
use low_latency_data_transfe.Tests.Configs.{inet_pton, args, config, accepted}
use low_latency_data_transfe.Tests.Data.{
  memory, blank_slot, ring₀, little_endian, little_endian-IsHostOrder,
}
use low_latency_data_transfe.Tests.Senders.{packet_size}
use low_latency_data_transfe.Tests.Runs.{turns, fates}

abbrev env : Environment
env = record {
  max_ethports = 32;
  ports = 3 ∷ [];
  dev_info_get = λ port. some (some net_ena);
  macaddr_get = λ port. some (2 ∷ 0 ∷ 0 ∷ 0 ∷ 0 ∷ 1 ∷ []);
  dev_socket_id = λ port. none;
  socket_id = 0;
}

abbrev info : DpdkPortInfo
info = record {
  port_id = 3;
  driver_name = net_ena;
  eth_addr = 2 ∷ 0 ∷ 0 ∷ 0 ∷ 0 ∷ 1 ∷ [];
  socket_id = 0;
}

try_get_dpdk_port_info_iff_example :
    (try_get_dpdk_port_info env ≡ some info → IsChosen env info)
    × (IsChosen env info → try_get_dpdk_port_info env ≡ some info)
try_get_dpdk_port_info_iff_example = try_get_dpdk_port_info_iff env (omega arith, tt) info

-- The port is found, and so is what the description says of it.
found : try_get_dpdk_port_info env ≡ some info
found = try_get_dpdk_port_info_iff_example.1 (record {
  only = refl;
  driver = refl;
  supported = inl refl;
  mac = refl;
  socket = inr (refl, refl);
})

-- Memory of the size that is asked for, filled with blank slots of the Compact profile.
abbrev pub sized : ℕ → Region
sized size = record memory { slots = replicate ((size - 128) / 128) blank_slot }

-- The sender finds an empty ring of two slots, and the receiver gets memory of the size it asks for.
abbrev pub tx_host : Host
tx_host = record {
  inet_pton = inet_pton;
  env = env;
  answers = λ c. true;
  opens = λ name size create. some ring₀;
}

abbrev pub rx_host : Host
rx_host = record tx_host { opens = λ name size create. some (sized size) }

abbrev pub runtime : Runtime
runtime = record { eal_init = some 0; sigterm = true; sigint = true; cleanup_result = 0 }

abbrev pub end : SenderEnd
end = sender_loop compact turns config ring₀

sender_exits :
    let ended = sender_main compact runtime tx_host turns args in
    ((ended.status ≡ 0) × (ended.left ≡ some end)
      → SenderCompletes compact runtime tx_host turns args (some end))
    × (SenderCompletes compact runtime tx_host turns args (some end)
        → (ended.status ≡ 0) × (ended.left ≡ some end))
sender_exits = sender_main-Completes compact runtime tx_host turns args (some end)

sender_completes : SenderCompletes compact runtime tx_host turns args (some end)
unfolding Tx.try_initialize sender_loop sender_shm_reader run_sender Sender.sender_pass
    Sender.first_read Sender.send_frame Sender.build_packet Sender.emit fill_batch Sender.batch_step
    Sender.take_next Sender.offer try_append raw_data_packet_builder finalize try_read Reader.handle
    Reader.admit Reader.classify Reader.count_read read copy_frame attach publish load_header
    frame_size reset_seqs
sender_completes = record {
  eal_argc = 0;
  initialized = refl;
  sigterm = refl;
  sigint = refl;
  served = record {
    config = config;
    parsed = accepted;
    info = info;
    found = found;
    set_up = refl;
    region = ring₀;
    opened = refl;
    ran = refl;
    leaves = refl;
  };
  cleaned = refl;
}

-- The link lets the first packet through, and the receiver gets it in its second burst.
abbrev pub bursts : List (List Mbuf)
bursts = [] ∷ (channel fates end.sent ∷ [])

abbrev pub received : ReceiverState
received = receiver_loop compact little_endian bursts config (sized (region_size 96 8))

receiver_exits :
    let ended = receiver_main compact little_endian runtime rx_host bursts args in
    ((ended.status ≡ 0) × (ended.left ≡ some received)
      → ReceiverCompletes compact little_endian runtime rx_host bursts args (some received))
    × (ReceiverCompletes compact little_endian runtime rx_host bursts args (some received)
        → (ended.status ≡ 0) × (ended.left ≡ some received))
receiver_exits =
    receiver_main-Completes compact little_endian runtime rx_host bursts args (some received)

receiver_completes :
    ReceiverCompletes compact little_endian runtime rx_host bursts args (some received)
unfolding Rx.try_initialize region_size load_header frame_size
receiver_completes = record {
  eal_argc = 0;
  initialized = refl;
  sigterm = refl;
  sigint = refl;
  served = record {
    config = config;
    parsed = accepted;
    info = info;
    found = found;
    set_up = refl;
    region = sized (region_size 96 8);
    opened = refl;
    ran = refl;
    leaves = refl;
  };
  cleaned = refl;
}

get_or-blank : (n i : ℕ) → i < n → length (get_or (replicate n blank_slot) i no_slot).frame ≡ 96
get_or-blank zero i h = absurd (omega arith)
get_or-blank (suc n) zero h = refl
get_or-blank (suc n) (suc i) h = get_or-blank n i (omega arith)

pub rx_host-MapsWhole : MapsWhole 96 rx_host.opens
unfolding region_size
rx_host-MapsWhole name slots region e =
    subst
      (λ r.
        (length r.slots ≡ slots)
        × ((i : ℕ) → i < slots → length (get_or r.slots i no_slot).frame ≡ 96))
      (some-injective _ _ e)
      (
        ap length same ∙ length-replicate slots blank_slot,
        λ i h. ap (λ ss. length (get_or ss i no_slot).frame) same ∙ get_or-blank slots i h,
      )
  where
    same : replicate ((128 + slots * 128 - 128) / 128) blank_slot ≡ replicate slots blank_slot
    same = ap (λ n. replicate n blank_slot) (omega arith)

programs_deliver_example :
    (k : ℕ) × (e : Emitted compact 0 (0 + length turns) end.sent) × IsRing 96 k
      (delivered compact 0 (0 + length turns) fates end.sent e)
      received.region
unfolding load_header frame_size
programs_deliver_example =
    programs_deliver compact compact-IsProfile little_endian little_endian-IsHostOrder runtime
      runtime tx_host rx_host args args turns fates bursts end received
      (sender_exits.1 sender_completes).0 (sender_exits.1 sender_completes).1
      (receiver_exits.1 receiver_completes).0 (receiver_exits.1 receiver_completes).1
      rx_host-MapsWhole (packet_size, (packet_size, tt)) (omega arith) (refl, tt) (append-nil _)
