-- ===== src/Tests/Data.antt =====
-- The data of the tests: two BBO frames of the Compact profile and a ring of two slots.
use low_latency_data_transfe.Base.{
  ℕ, zero, suc, ◌^◌, ◌<◌, ◌≡◌, refl, ◌/◌, bit_and, List, [], ◌∷◌, ◌++◌, true, arith, replicate,
  length, get_or, ◌%◌,
}
use low_latency_data_transfe.Bytes.{be_bytes, le_value}
use low_latency_data_transfe.Bytes.Order.{ByteOrder, IsHostOrder, bit_and-0xff}
use low_latency_data_transfe.Message.Compact.{compact, load_header, frame_size}
use low_latency_data_transfe.Ring.{Slot, Region, no_slot, attach, publish}
use low_latency_data_transfe.Ring.Window.{IsRing}
use low_latency_data_transfe.Ring.Attach.{attach-IsRing}
use low_latency_data_transfe.Ring.Publish.{publish-IsRing}
use low_latency_data_transfe.Receiver.Writer.{IsFrame}

-- A BBO frame: `seq_id`, time 0, instrument 0, type 2, and zeros.
abbrev pub bbo : ℕ → List ℕ
bbo seq_id = seq_id ∷ (replicate 17 0 ++ 2 ∷ replicate 29 0)

pub bbo-IsFrame : (n : ℕ) → IsFrame compact (bbo n)
unfolding load_header frame_size
bbo-IsFrame n = record { header = omega arith; size = refl; fits = omega arith }

abbrev pub blank_slot : Slot
blank_slot = record { seq = 0; frame_len = 0; frame = replicate 96 0 }

abbrev pub memory : Region
memory = record {
  magic = 0;
  slot_count = 0;
  slot_size = 0;
  write_index = 0;
  slots = blank_slot ∷ blank_slot ∷ [];
}

pub memory_slots : (p : ℕ) → p < 2 ^ 1 → length (get_or memory.slots p no_slot).frame ≡ 96
memory_slots zero h = refl
memory_slots (suc zero) h = refl
memory_slots (suc (suc p)) h = absurd (omega arith)

-- A fresh ring, one with frame 7, with frames 7 and 8, and with frame 9 in place of 7.
abbrev pub ring₀ : Region
ring₀ = (attach 96 memory 2 true).0

abbrev pub ring₁ : Region
ring₁ = publish ring₀ 1 (bbo 7) 48

abbrev pub ring₂ : Region
ring₂ = publish ring₁ 1 (bbo 8) 48

abbrev pub ring₃ : Region
ring₃ = publish ring₂ 1 (bbo 9) 48

pub ring₀-IsRing : IsRing 96 1 [] ring₀
ring₀-IsRing = (attach-IsRing 96 1 memory (omega arith) refl memory_slots).0

pub ring₁-IsRing : IsRing 96 1 (bbo 7 ∷ []) ring₁
ring₁-IsRing = publish-IsRing 96 1 [] ring₀ (bbo 7) (omega arith) (omega arith) ring₀-IsRing

pub ring₂-IsRing : IsRing 96 1 (bbo 7 ∷ bbo 8 ∷ []) ring₂
ring₂-IsRing =
    publish-IsRing 96 1 (bbo 7 ∷ []) ring₁ (bbo 8) (omega arith) (omega arith) ring₁-IsRing

pub ring₃-IsRing : IsRing 96 1 (bbo 7 ∷ bbo 8 ∷ bbo 9 ∷ []) ring₃
ring₃-IsRing =
    publish-IsRing 96 1 (bbo 7 ∷ bbo 8 ∷ []) ring₂ (bbo 9) (omega arith) (omega arith) ring₂-IsRing

-- A little-endian host: DPDK's conversions swap the bytes.
unfoldable pub swap16 : ℕ → ℕ
swap16 v = le_value (be_bytes 2 v)

unfoldable pub swap64 : ℕ → ℕ
swap64 v = le_value (be_bytes 8 v)

abbrev pub little_endian : ByteOrder
little_endian = record { be_to_cpu_16 = swap16; be_to_cpu_64 = swap64; cpu_to_be_16 = swap16 }

swap16_twice : (v : ℕ) → v < 2 ^ 16 → swap16 (swap16 v) ≡ v
unfolding swap16
swap16_twice v h = omega (
  arith,
  bit_and-0xff (v / 2 ^ 8),
  bit_and-0xff (v / 1),
  bit_and-0xff (swap16 v / 2 ^ 8),
  bit_and-0xff (swap16 v / 1),
)

swap64_twice : (v : ℕ) → v < 2 ^ 64 → swap64 (swap64 v) ≡ v
unfolding swap64
swap64_twice v h = omega (arith, bytes_of v, bytes_of (swap64 v))
  where
    bytes_of :
        (w : ℕ)
        → (bit_and (w / 2 ^ 56) 0xff ≡ w / 2 ^ 56 % 256)
          × (bit_and (w / 2 ^ 48) 0xff ≡ w / 2 ^ 48 % 256)
          × (bit_and (w / 2 ^ 40) 0xff ≡ w / 2 ^ 40 % 256)
          × (bit_and (w / 2 ^ 32) 0xff ≡ w / 2 ^ 32 % 256)
          × (bit_and (w / 2 ^ 24) 0xff ≡ w / 2 ^ 24 % 256)
          × (bit_and (w / 2 ^ 16) 0xff ≡ w / 2 ^ 16 % 256)
          × (bit_and (w / 2 ^ 8) 0xff ≡ w / 2 ^ 8 % 256)
          × (bit_and (w / 1) 0xff ≡ w / 1 % 256)
    bytes_of w = (
      bit_and-0xff _,
      bit_and-0xff _,
      bit_and-0xff _,
      bit_and-0xff _,
      bit_and-0xff _,
      bit_and-0xff _,
      bit_and-0xff _,
      bit_and-0xff _,
    )

pub little_endian-IsHostOrder : IsHostOrder little_endian
unfolding swap16 swap64
little_endian-IsHostOrder = record {
  be_to_cpu_16_lem = swap16_twice;
  be_to_cpu_64_lem = swap64_twice;
  cpu_to_be_16_lem = λ v h. refl;
}
