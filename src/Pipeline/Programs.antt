-- ===== src/Pipeline/Programs.antt =====
-- The two programs of src/sender_main.cpp and src/receiver_main.cpp, from their arguments on.
use low_latency_data_transfe.Base.Bits.{small-exponent}
use low_latency_data_transfe.Base.{
  ℕ, ◌+◌, ◌-◌, ◌^◌, ◌<◌, ◌≡◌, refl, sym, ap, ◌∙◌, subst, List, [], Option, some, true, false, arith,
  length, replicate, length-replicate, concat, get_or,
}
use mathlib.Core.Option.{some-injective}
use low_latency_data_transfe.Bytes.Order.{ByteOrder, IsHostOrder}
use low_latency_data_transfe.Message.{Profile, IsProfile}
use low_latency_data_transfe.Config.{Str, EndpointConfig}
use low_latency_data_transfe.Config.Valid.{try_parse_endpoint_config-IsConfig}
use low_latency_data_transfe.Parser.{Mbuf}
use low_latency_data_transfe.Ring.{Region, no_slot, attach}
use low_latency_data_transfe.Ring.Attach.{attach-IsRing, MapsWhole}
use low_latency_data_transfe.Ring.Window.{IsRing}
use low_latency_data_transfe.Reader.{sender_shm_reader}
use low_latency_data_transfe.Receiver.{ReceiverState, start_receiver, run_receiver, process_packets}
use low_latency_data_transfe.Receiver.Bursts.{run_receiver-concat}
use low_latency_data_transfe.Sender.{Turn, SenderEnd, start_sender}
use low_latency_data_transfe.Sender.Turns.{IsSender}
use low_latency_data_transfe.Sender.Audit.{IsAudited}
use low_latency_data_transfe.Sender.Run.{AllReserve, Emitted}
use low_latency_data_transfe.Entry.{
  Runtime, Host, sender_loop, sender_main, receiver_loop, receiver_main,
}
use low_latency_data_transfe.Entry.Exit.{sender_main-Completes, receiver_main-Completes}
use low_latency_data_transfe.Pipeline.Channel.{channel, Framed, delivered, run_sender-delivers}

module _ (p : Profile) (reader_region : Region) where
  start-IsSender :
      IsSender p (start_sender (sender_shm_reader reader_region (replicate p.max_frame 0)))
  unfolding sender_shm_reader
  start-IsSender = record { buffer = length-replicate p.max_frame 0; carry = tt }

  start-IsAudited :
      IsAudited 0 (start_sender (sender_shm_reader reader_region (replicate p.max_frame 0)))
  unfolding sender_shm_reader
  start-IsAudited = record {
    built = refl;
    consumed = refl;
    transmitted = refl;
    offered = refl;
    read = refl;
  }

-- The receiver's loop in a segment of 2^k slots: a packet at a time, from an empty ring on.
receiver_loop-region :
    (p : Profile) (order : ByteOrder) (bursts : List (List Mbuf)) (config : EndpointConfig)
    (region : Region) (k : ℕ)
    → config.slots ≡ 2 ^ k
    → k < 32
    → length region.slots ≡ 2 ^ k
    → ((i : ℕ) → i < 2 ^ k → length (get_or region.slots i no_slot).frame ≡ p.max_frame)
    → (start : Region) × IsRing p.max_frame k [] start
      × ((receiver_loop p order bursts config region).region
          ≡ (process_packets p order (2 ^ k - 1) (start_receiver start) (concat bursts)).region)
unfolding receiver_loop
receiver_loop-region p order bursts config region k slots small len size =
    let (start, mask) = attach p.max_frame region (2 ^ k) true in
    let (ring, mask_is) = attach-IsRing p.max_frame k region small len size in
    (
      start,
      ring,
      ap
            (λ s.
              (run_receiver p order (attach p.max_frame region s true).1
                (start_receiver (attach p.max_frame region s true).0) bursts).region)
            slots
          ∙ ap (λ m. (run_receiver p order m (start_receiver start) bursts).region) mask_is
          ∙ ap (λ st. st.region)
              (run_receiver-concat p order (2 ^ k - 1) bursts (start_receiver start) (omega arith)
                (omega arith)),
    )

module _ (p : Profile) (law : IsProfile p) (order : ByteOrder)
    (host_order : IsHostOrder order) where
  loops_deliver :
      (turns : List Turn) (fates : List (Option (List ℕ))) (bursts : List (List Mbuf))
      (tx_config rx_config : EndpointConfig) (tx_region rx_region : Region) (k : ℕ)
      → rx_config.slots ≡ 2 ^ k
      → k < 32
      → length rx_region.slots ≡ 2 ^ k
      → ((i : ℕ) → i < 2 ^ k → length (get_or rx_region.slots i no_slot).frame ≡ p.max_frame)
      → AllReserve turns
      → length turns < 2 ^ 48 - 1
      → Framed fates
      → concat bursts ≡ channel fates (sender_loop p turns tx_config tx_region).sent
      → (e : Emitted p 0 (0 + length turns) (sender_loop p turns tx_config tx_region).sent) × IsRing
          p.max_frame k
          (delivered p 0 (0 + length turns) fates (sender_loop p turns tx_config tx_region).sent e)
          (receiver_loop p order bursts rx_config rx_region).region
  unfolding sender_loop
  loops_deliver turns fates bursts tx_config rx_config tx_region rx_region k slots small len size
        memory few framed through =
      let (attached, mask) = attach p.max_frame tx_region tx_config.slots false in
      let (start, ring, same) =
        receiver_loop-region p order bursts rx_config rx_region k slots small len size in
      let (e, r) =
        run_sender-delivers p law order host_order k mask tx_config.batching_enabled
          (start_sender (sender_shm_reader attached (replicate p.max_frame 0))) turns fates
          (start_receiver start) [] (start-IsSender p attached) (start-IsAudited p attached) memory
          (omega arith) framed (λ e. cc) (omega arith) ring in
      (
        e,
        subst (IsRing p.max_frame k _)
            (sym (
              same
              ∙ ap (λ ms. (process_packets p order (2 ^ k - 1) (start_receiver start) ms).region)
                  through))
            r,
      )

  -- If both programs end with status 0, on any arguments, or the sender is still in its loop behind
  -- the passes, the receiver's segment having room for the slots it was sized for, memory being reserved whole, and the receiver being given, in any
  -- bursts, what the link let through of the packets that the sender's port took, behind 42 bytes
  -- each, then the receiver's ring is well formed and stands for exactly the frames of the packets
  -- that came through, byte for byte and in order, for fewer than 2^48 passes of the sender.
  pub programs_deliver :
      (tx_runtime rx_runtime : Runtime) (tx_host rx_host : Host) (tx_args rx_args : List Str)
      (turns : List Turn) (fates : List (Option (List ℕ))) (bursts : List (List Mbuf))
      (end : SenderEnd) (rx : ReceiverState)
      → (sender_main p tx_runtime tx_host turns tx_args).status ≡ 0
      → (sender_main p tx_runtime tx_host turns tx_args).left ≡ some end
      → (receiver_main p order rx_runtime rx_host bursts rx_args).status ≡ 0
      → (receiver_main p order rx_runtime rx_host bursts rx_args).left ≡ some rx
      → MapsWhole p.max_frame rx_host.opens
      → AllReserve turns
      → length turns < 2 ^ 48 - 1
      → Framed fates
      → concat bursts ≡ channel fates end.sent
      → (k : ℕ) × (e : Emitted p 0 (0 + length turns) end.sent) × IsRing p.max_frame k
          (delivered p 0 (0 + length turns) fates end.sent e)
          rx.region
  programs_deliver tx_runtime rx_runtime tx_host rx_host tx_args rx_args turns fates bursts end rx
        tx_ok tx_left rx_ok rx_left whole memory few framed through =
      let tx =
        ((sender_main-Completes p tx_runtime tx_host turns tx_args (some end)).0
          (tx_ok, tx_left)).served in
      let rx' =
        ((receiver_main-Completes p order rx_runtime rx_host bursts rx_args (some rx)).0
          (rx_ok, rx_left)).served in
      let valid = try_parse_endpoint_config-IsConfig rx_host.inet_pton rx'.config _ rx'.parsed in
      let (k, pow) = valid.slots_pow2 in
      let (len, size) = whole rx'.config.shm_name rx'.config.slots rx'.region rx'.opened in
      let sent = some-injective _ _ tx.leaves in
      let received = some-injective _ _ rx'.leaves in
      let (e, ring) =
        subst
          (λ (s : SenderEnd).
            (e : Emitted p 0 (0 + length turns) s.sent) × IsRing p.max_frame k
              (delivered p 0 (0 + length turns) fates s.sent e) rx.region)
          (sym sent)
          (subst
            (λ (st : ReceiverState).
              (e : Emitted p 0 (0 + length turns) (sender_loop p turns tx.config tx.region).sent)
              × IsRing p.max_frame k
                  (delivered p 0 (0 + length turns) fates
                    (sender_loop p turns tx.config tx.region).sent e)
                  st.region)
            (sym received)
            (loops_deliver turns fates bursts tx.config rx'.config tx.region rx'.region k pow
              (small-exponent k (omega (arith, pow, valid.slots_fit))) (len ∙ pow)
              (λ i h. size i (omega (arith, pow))) memory few framed
              (through ∙ ap (λ (s : SenderEnd). channel fates s.sent) sent))) in
      (k, e, ring)
