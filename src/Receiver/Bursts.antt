-- ===== src/Receiver/Bursts.antt =====
-- How the port groups packets into bursts makes no difference to what the receiver does with them.
use mathlib.Core.Path.{ap₂}
use low_latency_data_transfe.Base.{
  ℕ, ◌+◌, ◌^◌, ◌<◌, ◌≡◌, refl, sym, ap, ◌∙◌, List, [], ◌∷◌, ◌++◌, arith, u64, length, concat,
}
use low_latency_data_transfe.Bytes.Order.{ByteOrder}
use low_latency_data_transfe.Message.{Profile}
use low_latency_data_transfe.Parser.{Mbuf}
use low_latency_data_transfe.Receiver.{
  ReceiverState, process_packet, process_packets, receive_burst, run_receiver,
}

-- The state with other counts of bursts.
abbrev pub with_bursts : ReceiverState → ℕ → ℕ → ReceiverState
with_bursts st bursts empty_bursts = record st {
  counters = record st.counters { rx_bursts = bursts; empty_rx_bursts = empty_bursts };
}

-- How many bursts brought no packet.
abbrev pub empties : List (List Mbuf) → ℕ
empties [] = 0
empties ([] ∷ bursts) = empties bursts + 1
empties ((mbuf ∷ mbufs) ∷ bursts) = empties bursts

module _ (p : Profile) (order : ByteOrder) (mask : ℕ) where
  -- The counts of bursts play no part in the treatment of a packet.
  process_packet-with_bursts :
      (st : ReceiverState) (mbuf : Mbuf) (n m : ℕ)
      → process_packet p order mask (with_bursts st n m) mbuf
        ≡ with_bursts (process_packet p order mask st mbuf) n m
  unfolding process_packet
  process_packet-with_bursts st mbuf n m = ground arith

  process_packets-with_bursts :
      (mbufs : List Mbuf) (st : ReceiverState) (n m : ℕ)
      → process_packets p order mask (with_bursts st n m) mbufs
        ≡ with_bursts (process_packets p order mask st mbufs) n m
  unfolding process_packets
  process_packets-with_bursts [] st n m = refl
  process_packets-with_bursts (mbuf ∷ mbufs) st n m =
      ap (λ s. process_packets p order mask s mbufs) (process_packet-with_bursts st mbuf n m)
      ∙ process_packets-with_bursts mbufs (process_packet p order mask st mbuf) n m

  process_packets-append :
      (xs ys : List Mbuf) (st : ReceiverState)
      → process_packets p order mask st (xs ++ ys)
        ≡ process_packets p order mask (process_packets p order mask st xs) ys
  unfolding process_packets
  process_packets-append [] ys st = refl
  process_packets-append (x ∷ xs) ys st =
      process_packets-append xs ys (process_packet p order mask st x)

  receive_burst-packets :
      (mbuf : Mbuf) (mbufs : List Mbuf) (st : ReceiverState) (n m : ℕ)
      → receive_burst p order mask (with_bursts st n m) (mbuf ∷ mbufs)
        ≡ process_packets p order mask (with_bursts st (u64 (n + 1)) m) (mbuf ∷ mbufs)
  unfolding receive_burst
  receive_burst-packets mbuf mbufs st n m = ground arith

  run_receiver-with_bursts :
      (bursts : List (List Mbuf)) (st : ReceiverState) (n m : ℕ)
      → n < 2 ^ 64
      → m < 2 ^ 64
      → run_receiver p order mask (with_bursts st n m) bursts
        ≡ with_bursts
            (process_packets p order mask st (concat bursts))
            (u64 (n + length bursts))
            (u64 (m + empties bursts))
  unfolding run_receiver process_packets receive_burst
  run_receiver-with_bursts [] st n m small small' =
      ap₂ (with_bursts st) {x = n} {y = u64 (n + 0)} (omega arith) (omega arith)
  run_receiver-with_bursts ([] ∷ bursts) st n m small small' =
      run_receiver-with_bursts bursts st (u64 (n + 1)) (u64 (m + 1)) (omega arith) (omega arith)
      ∙ ap₂ (with_bursts (process_packets p order mask st (concat bursts))) (omega arith)
          (omega arith)
  run_receiver-with_bursts ((mbuf ∷ mbufs) ∷ bursts) st n m small small' =
      let st' = process_packets p order mask st (mbuf ∷ mbufs) in
      ap (λ s. run_receiver p order mask s bursts)
        (receive_burst-packets mbuf mbufs st n m
          ∙ process_packets-with_bursts (mbuf ∷ mbufs) st (u64 (n + 1)) m)
      ∙ run_receiver-with_bursts bursts st' (u64 (n + 1)) m (omega arith) small'
      ∙ ap₂ (with_bursts (process_packets p order mask st' (concat bursts))) (omega arith) refl
      ∙ ap
          (λ s.
            with_bursts s (u64 (n + length ((mbuf ∷ mbufs) ∷ bursts))) (u64 (m + empties bursts)))
          (sym (process_packets-append (mbuf ∷ mbufs) (concat bursts) st))

  -- Over any bursts, and with counts of bursts below 2^64 before them, the receiver does what it
  -- does to the packets one after another, and counts the bursts and the empty ones besides.
  pub run_receiver-concat :
      (bursts : List (List Mbuf)) (st : ReceiverState)
      → st.counters.rx_bursts < 2 ^ 64
      → st.counters.empty_rx_bursts < 2 ^ 64
      → run_receiver p order mask st bursts
        ≡ with_bursts
            (process_packets p order mask st (concat bursts))
            (u64 (st.counters.rx_bursts + length bursts))
            (u64 (st.counters.empty_rx_bursts + empties bursts))
  run_receiver-concat bursts st small small' =
      run_receiver-with_bursts bursts st st.counters.rx_bursts st.counters.empty_rx_bursts small
        small'
