-- ===== src/Ports/Rx.antt =====
-- src/dpdk/dpdk_rx_port.cpp: the port of the receiver.
use low_latency_data_transfe.Base.{ℕ, Bool}
use low_latency_data_transfe.Ports.{
  Call, eth_dev_configure, pktmbuf_pool_create, pktmbuf_alloc_bulk, memset, pktmbuf_free_bulk,
  pktmbuf_alloc, pktmbuf_free, eth_rx_queue_setup, eth_dev_start, Attempt, succeeded, call,
  try_call, try_create,
}

abbrev pub rx_queue_number : ℕ
rx_queue_number = 1

abbrev pub tx_queue_number : ℕ
tx_queue_number = 0

abbrev pub mtu : ℕ
mtu = 1500

abbrev pub rx_desc_count : ℕ
rx_desc_count = 1024

abbrev pub rx_mbuf_count : ℕ
rx_mbuf_count = 2047

abbrev pub rx_mbuf_cache_size : ℕ
rx_mbuf_cache_size = 23

abbrev pub rx_queue_id : ℕ
rx_queue_id = 0

unfoldable pub try_initialize : (Call → Bool) → ℕ → ℕ → Attempt
unfolding try_create call
try_initialize answers port_id socket_id =
    try_call answers (eth_dev_configure port_id rx_queue_number tx_queue_number mtu) (
      try_create answers (pktmbuf_pool_create rx_mbuf_count rx_mbuf_cache_size 0 socket_id) (
        try_call answers (pktmbuf_alloc_bulk rx_mbuf_count) (
          call (memset rx_mbuf_count) (
            call (pktmbuf_free_bulk rx_mbuf_count) (
              try_call answers pktmbuf_alloc (
                call pktmbuf_free (
                  try_call answers (eth_rx_queue_setup port_id rx_queue_id rx_desc_count socket_id)
                    (try_call answers (eth_dev_start port_id) succeeded))))))))
