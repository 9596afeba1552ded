-- ===== src/Segment.antt =====
-- harness/include/shm_segment.h: `shm::Segment` as the calls of the operating system that it makes.
-- What these answer is a parameter; a descriptor or a base that is unset or failed is `none`.
pub mod Once
use low_latency_data_transfe.Base.{
  ℕ, zero, suc, List, [], ◌∷◌, ◌++◌, Bool, ◌&&◌, not, Option, none, some, if◌then◌else◌,
}
use low_latency_data_transfe.Config.{Str}

-- `shm_open` with the name and whether the flags have `O_CREAT`; `ftruncate` with descriptor and
-- size; `mmap` with size and descriptor; `munmap` with base and size.
pub data Call : Type 0 where
  shm_open : Str → Bool → Call
  ftruncate : ℕ → ℕ → Call
  mmap : ℕ → ℕ → Call
  munmap : ℕ → ℕ → Call
  close : ℕ → Call
  shm_unlink : Str → Call

pub record Answers : Type 0 where
  pub fd : Option ℕ
  pub truncated : Bool
  pub base : Option ℕ

pub record Segment : Type 0 where
  pub name : Str
  pub fd : Option ℕ
  pub base : Option ℕ
  pub size : ℕ

-- `Segment::open`, from `mmap` on; `none` where it calls `std::exit(1)`.
unfoldable pub map_segment : Answers → Str → ℕ → ℕ → Option Segment
map_segment answers name size fd = elim answers.base [
  | none ↦ none
  | some base ↦ some (record { name = name; fd = some fd; base = some base; size = size })
]

-- `Segment::open`, behind `shm_open`, with the calls that it makes from there.
unfoldable pub size_segment : Answers → Str → ℕ → Bool → ℕ → Option Segment × List Call
unfolding map_segment
size_segment answers name size create fd =
    if create && not answers.truncated then (none, ftruncate fd size ∷ []) else (
      map_segment answers name size fd,
      (if create then ftruncate fd size ∷ [] else []) ++ mmap size fd ∷ [],
    )

unfoldable pub open_segment : Answers → Str → ℕ → Bool → Option Segment × List Call
unfolding size_segment
open_segment answers name size create = elim answers.fd [
  | none ↦ (none, shm_open name create ∷ [])
  | some fd ↦
      let (segment, calls) = size_segment answers name size create fd in
      (segment, shm_open name create ∷ calls)
]

unfoldable pub unlink : Segment → List Call
unlink s = shm_unlink s.name ∷ []

abbrev pub unmap_base : Option ℕ → ℕ → List Call
unmap_base none size = []
unmap_base (some base) size = munmap base size ∷ []

abbrev pub close_fd : Option ℕ → List Call
close_fd none = []
close_fd (some fd) = close fd ∷ []

-- `~Segment`
unfoldable pub destroy : Segment → List Call
destroy s = unmap_base s.base s.size ++ close_fd s.fd

-- The move constructor: the new object, and what it leaves of the old one.
unfoldable pub move : Segment → Segment × Segment
move o = (o, record o { name = []; fd = none; base = none })
