-- ===== src/Ports/Tx.antt =====
-- src/dpdk/dpdk_tx_port.cpp: the port of the sender.
use low_latency_data_transfe.Base.{ℕ, Bool}
use low_latency_data_transfe.Ports.{
  Call, eth_dev_configure, pktmbuf_pool_create, pktmbuf_alloc_bulk, memset, pktmbuf_free_bulk,
  pktmbuf_alloc, pktmbuf_free, eth_tx_queue_setup, eth_dev_start, Attempt, succeeded, call,
  try_call, try_create,
}

abbrev pub rx_queue_number : ℕ
rx_queue_number = 0

abbrev pub tx_queue_number : ℕ
tx_queue_number = 1

abbrev pub tx_desc_count : ℕ
tx_desc_count = 512

abbrev pub tx_mbuf_count : ℕ
tx_mbuf_count = 2047

abbrev pub tx_mbuf_cache_size : ℕ
tx_mbuf_cache_size = 23

abbrev pub tx_queue_id : ℕ
tx_queue_id = 0

-- The configuration is zero but for the numbers of queues.
unfoldable pub try_initialize : (Call → Bool) → ℕ → ℕ → Attempt
unfolding try_create call
try_initialize answers port_id socket_id =
    try_call answers (eth_dev_configure port_id rx_queue_number tx_queue_number 0) (
      try_call answers (eth_tx_queue_setup port_id tx_queue_id tx_desc_count socket_id) (
        try_create answers (pktmbuf_pool_create tx_mbuf_count tx_mbuf_cache_size 0 socket_id) (
          try_call answers (pktmbuf_alloc_bulk tx_mbuf_count) (
            call (memset tx_mbuf_count) (
              call (pktmbuf_free_bulk tx_mbuf_count) (
                try_call answers pktmbuf_alloc
                  (call pktmbuf_free (try_call answers (eth_dev_start port_id) succeeded))))))))
