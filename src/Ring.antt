-- ===== src/Ring.antt =====
-- harness/include/shm_ring.h: the shared-memory broadcast ring. The mapped region is one value;
-- a publisher or a reader is a view of it with its own `mask_`. Atomic loads and stores are single
-- steps in one order, as on the x86 host the harness is built for.
pub mod Attach
pub mod Window
pub mod Publish
pub mod Read
pub mod Torn
pub mod Writer
pub mod Steps
pub mod Loads
pub mod Interleaved
pub mod Quiet
use low_latency_data_transfe.Base.{
  ℕ, zero, suc, ◌+◌, ◌-◌, ◌*◌, ◌/◌, ◌%◌, ◌^◌, List, [], ◌∷◌, Bool, true, false, bit_and, get_or,
  set, take, length, write_at, ltb, ◌==◌, if◌then◌else◌, u64, sub64,
}

-- `shm::Slot`; `seq` is 0 where nothing was ever written.
pub record Slot : Type 0 where
  pub seq : ℕ
  pub frame_len : ℕ
  pub frame : List ℕ

-- `shm::Header` with the slots that follow it.
pub record Region : Type 0 where
  pub magic : ℕ
  pub slot_count : ℕ
  pub slot_size : ℕ
  pub write_index : ℕ
  pub slots : List Slot

abbrev pub magic_shm1 : ℕ
magic_shm1 = 0x53484d31

-- `sizeof(Slot)`: 12 bytes and the frame, rounded up to cache lines.
abbrev pub sizeof_slot : ℕ → ℕ
sizeof_slot frame_cap = (12 + frame_cap + 63) / 64 * 64

-- `shm::region_size`; `sizeof(Header)` is two cache lines.
unfoldable pub region_size : ℕ → ℕ → ℕ
region_size frame_cap slots = 128 + slots * sizeof_slot frame_cap

abbrev pub no_slot : Slot
no_slot = record { seq = 0; frame_len = 0; frame = [] }

-- `slots_[idx & mask_]`
abbrev pub slot_at : Region → ℕ → ℕ → Slot
slot_at r mask idx = get_or r.slots (bit_and idx mask) no_slot

abbrev pub with_slot : Region → ℕ → ℕ → Slot → Region
with_slot r mask idx s = record r { slots = set r.slots (bit_and idx mask) s }

-- `for (i = 0; i < slots; ++i) slots_[i].seq.store(0)`
unfoldable pub reset_seqs : ℕ → List Slot → List Slot
reset_seqs zero ss = ss
reset_seqs (suc n) [] = []
reset_seqs (suc n) (s ∷ ss) = record s { seq = 0 } ∷ reset_seqs n ss

-- `Ring::attach`: the region after it, and `mask_`.
unfoldable pub attach : ℕ → Region → ℕ → Bool → Region × ℕ
attach frame_cap r slots init = (r', (r'.slot_count + 2 ^ 32 - 1) % 2 ^ 32)
  where
    r' : Region
    r' =
        if init
        then record {
          magic = magic_shm1;
          slot_count = slots;
          slot_size = sizeof_slot frame_cap;
          write_index = 0;
          slots = reset_seqs slots r.slots;
        }
        else r

-- The four stores of `Ring::publish`, in their order.
unfoldable pub store_len : Region → ℕ → ℕ → ℕ → Region
store_len r mask idx len = with_slot r mask idx (record (slot_at r mask idx) { frame_len = len })

unfoldable pub store_frame : Region → ℕ → ℕ → List ℕ → ℕ → Region
store_frame r mask idx frame len =
    with_slot r mask idx (record s { frame = write_at s.frame 0 (take len frame) })
  where
    s : Slot
    s = slot_at r mask idx

unfoldable pub store_seq : Region → ℕ → ℕ → Region
store_seq r mask idx = with_slot r mask idx (record (slot_at r mask idx) { seq = u64 (idx + 1) })

unfoldable pub store_write_index : Region → ℕ → Region
store_write_index r idx = record r { write_index = u64 (idx + 1) }

-- `Ring::publish`
unfoldable pub publish : Region → ℕ → List ℕ → ℕ → Region
unfolding store_len store_frame store_seq store_write_index
publish r mask frame len =
    let idx = r.write_index in
    let r₁ = store_len r mask idx len in
    let r₂ = store_frame r₁ mask idx frame len in
    let r₃ = store_seq r₂ mask idx in store_write_index r₃ idx

unfoldable pub live_edge : Region → ℕ
live_edge r = r.write_index

pub data FrameStatus : Type 0 where
  ok : ℕ → FrameStatus
  empty : FrameStatus
  lapped : ℕ → FrameStatus

-- What the region holds at each load that a read makes; the copy loads byte after byte.
pub record Snapshots : Type 0 where
  pub at_seq : Region
  pub at_len : Region
  pub at_copy : ℕ → Region
  pub at_recheck : Region
  pub at_edge : Region

-- A read while no producer is at work.
abbrev pub still : Region → Snapshots
still r = record { at_seq = r; at_len = r; at_copy = λ _. r; at_recheck = r; at_edge = r }

-- `std::memcpy(out, s.frame, len)`, from byte `i` on.
unfoldable pub copy_frame : (ℕ → Region) → ℕ → ℕ → ℕ → ℕ → List ℕ
copy_frame at_copy mask idx i zero = []
copy_frame at_copy mask idx i (suc n) =
    get_or (slot_at (at_copy i) mask idx).frame i 0 ∷ copy_frame at_copy mask idx (i + 1) n

-- `edge > slot_count() ? edge - slot_count() : 0`
unfoldable pub resume_at : Region → ℕ
unfolding live_edge
resume_at r = if ltb r.slot_count (live_edge r) then live_edge r - r.slot_count else 0

-- `Ring::read`: the status with what goes through `out_len` and `resume_at`, and the bytes at `out`.
unfoldable pub read : Snapshots → ℕ → ℕ → List ℕ → FrameStatus × List ℕ
unfolding copy_frame resume_at
read v mask read_index out =
    let seq = (slot_at v.at_seq mask read_index).seq in
    let want = u64 (read_index + 1) in
    let len = (slot_at v.at_len mask read_index).frame_len in
    let out' = write_at out 0 (copy_frame v.at_copy mask read_index 0 len) in
    if ltb seq want
    then (empty, out)
    else if ltb want seq
    then (lapped (resume_at v.at_edge), out)
    else if (slot_at v.at_recheck mask read_index).seq == want
    then (ok len, out')
    else (lapped (resume_at v.at_edge), out')
