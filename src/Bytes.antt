-- ===== src/Bytes.antt =====
-- Bytes and their order: `writeSizeofTBE` of include/lldt/raw_data_packet_builder.hpp, the
-- fields that `std::memcpy` loads on the little-endian host, and DPDK's conversions of byte order.
pub mod Order
use low_latency_data_transfe.Base.{
  ℕ, zero, suc, ◌+◌, ◌-◌, ◌*◌, ◌/◌, ◌^◌, List, [], ◌∷◌, take, drop, bit_and, write_at,
}

-- The bytes of `value`, most significant first: byte `i` is `(value >> 8 * (size - i - 1)) & 0xFF`.
abbrev pub be_bytes : ℕ → ℕ → List ℕ
be_bytes zero value = []
be_bytes (suc rest) value = bit_and (value / 2 ^ (8 * rest)) 0xff ∷ be_bytes rest value

-- `writeSizeofTBE(output + offset, value)`: the stores, and the offset behind them.
abbrev pub write_sizeof_t_be : List ℕ → ℕ → ℕ → ℕ → List ℕ × ℕ
write_sizeof_t_be output offset size value =
    (write_at output offset (be_bytes size value), offset + size)

-- The number that bytes stand for, the most significant first.
abbrev pub be_value : ℕ → List ℕ → ℕ
be_value acc [] = acc
be_value acc (b ∷ bs) = be_value (acc * 256 + b) bs

-- The number that bytes in memory are on a little-endian host.
abbrev pub le_value : List ℕ → ℕ
le_value [] = 0
le_value (b ∷ bs) = b + 256 * le_value bs

abbrev pub le_bytes : ℕ → ℕ → List ℕ
le_bytes zero value = []
le_bytes (suc rest) value = bit_and value 0xff ∷ le_bytes rest (value / 256)

-- `std::memcpy` of an integer field of `size` bytes at `offset`.
abbrev pub load_field : ℕ → ℕ → List ℕ → ℕ
load_field offset size bytes = le_value (take size (drop offset bytes))
