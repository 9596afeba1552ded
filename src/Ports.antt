-- ===== src/Ports.antt =====
-- The calls of DPDK with which the ports of src/dpdk/ are set up and torn down. What a call answers
-- is a parameter; what a port did is the list of its calls, in order.
pub mod Rx
pub mod Tx
pub mod Info
pub mod Chosen
use low_latency_data_transfe.Base.{
  ℕ, ◌+◌, ◌-◌, List, [], ◌∷◌, Bool, true, false, ◌&&◌, Option, none, some, ltb, if◌then◌else◌,
}

pub data Call : Type 0 where
  -- The numbers of queues to receive and to send, and the MTU.
  eth_dev_configure : ℕ → ℕ → ℕ → ℕ → Call
  pktmbuf_pool_create : ℕ → ℕ → ℕ → ℕ → Call
  pktmbuf_alloc_bulk : ℕ → Call
  memset : ℕ → Call
  pktmbuf_free_bulk : ℕ → Call
  pktmbuf_alloc : Call
  pktmbuf_free : Call
  eth_rx_queue_setup : ℕ → ℕ → ℕ → ℕ → Call
  eth_tx_queue_setup : ℕ → ℕ → ℕ → ℕ → Call
  eth_dev_start : ℕ → Call
  eth_dev_stop : ℕ → Call
  eth_dev_close : ℕ → Call
  mempool_free : Bool → Call

-- Whether `try_initialize` returns true, whether the port holds a pool then, and what it called.
pub record Attempt : Type 0 where
  pub ok : Bool
  pub mbuf_pool : Bool
  pub calls : List Call

abbrev pub succeeded : Attempt
succeeded = record { ok = true; mbuf_pool = false; calls = [] }

-- A call that cannot fail.
unfoldable pub call : Call → Attempt → Attempt
call c rest = record rest { calls = c ∷ rest.calls }

-- A call, and `return false` if it fails.
unfoldable pub try_call : (Call → Bool) → Call → Attempt → Attempt
unfolding call
try_call answers c rest =
    if answers c then call c rest else record { ok = false; mbuf_pool = false; calls = c ∷ [] }

-- The call that creates the pool, which the port holds from then on.
unfoldable pub try_create : (Call → Bool) → Call → Attempt → Attempt
unfolding try_call
try_create answers c rest = try_call answers c (record rest { mbuf_pool = true })

-- The destructor of either port; `rte_mempool_free` ignores a null pointer.
unfoldable pub destroy : ℕ → Attempt → List Call
destroy port_id a = eth_dev_stop port_id ∷ (eth_dev_close port_id ∷ (mempool_free a.mbuf_pool ∷ []))
