-- ===== src/Builder/Header.antt =====
-- `writeLLDTHeader` against the layout of WIRE_PROTOCOL.md, section 3.
use low_latency_data_transfe.Base.{
  ℕ, ◌+◌, ◌≤◌, ◌≡◌, refl, sym, ap, ◌∙◌, List, [], ◌∷◌, ◌++◌, drop, length, write_at, arith,
  write_at-append, append_assoc, length-append, length-drop, drop-drop,
}
use low_latency_data_transfe.Bytes.{be_bytes, write_sizeof_t_be}
use low_latency_data_transfe.Bytes.Order.{length-be_bytes}
use low_latency_data_transfe.Builder.{
  data_header_size, magic_lldt, protocol_version, write_lldt_header,
}

-- The Data header of WIRE_PROTOCOL.md, section 3.
abbrev pub header_bytes : ℕ → ℕ → List ℕ
header_bytes data_seq record_count =
    be_bytes 4 magic_lldt
    ++ (be_bytes 1 protocol_version
        ++ (be_bytes 2 data_header_size
            ++ (be_bytes 8 data_seq ++ (be_bytes 2 record_count ++ (0 ∷ 0 ∷ 0 ∷ 0 ∷ 0 ∷ [])))))

-- The first `n` bytes of `output` have become `before`, and the offset stands behind them.
record Stored (output before : List ℕ) (n : ℕ) (o : List ℕ × ℕ) : Type 0 where
  bytes : o.0 ≡ before ++ drop n output
  offset : o.1 ≡ n
  len : length before ≡ n

store_be :
    (output before : List ℕ) (n : ℕ) (o : List ℕ × ℕ) (size value : ℕ)
    → n + size ≤ length output
    → Stored output before n o
    → Stored output
        (before ++ be_bytes size value)
        (n + size)
        (write_sizeof_t_be o.0 o.1 size value)
store_be output before n o size value h s = record {
  bytes =
      ap (λ t. write_at t o.1 (be_bytes size value)) s.bytes
      ∙ write_at-append before (drop n output) o.1 (be_bytes size value)
          (omega (arith, s.offset, s.len))
          (omega (arith, length-be_bytes size value, length-drop n output))
      ∙ sym (append_assoc before (be_bytes size value) _)
      ∙ ap (λ t. (before ++ be_bytes size value) ++ t)
          (ap (λ t. drop t (drop n output)) (length-be_bytes size value) ∙ drop-drop size n output);
  offset = omega (arith, s.offset);
  len =
      omega (arith, s.len, length-append before (be_bytes size value), length-be_bytes size value);
}

-- The header's stores leave the 22 bytes of the Data header at the front of the memory and the
-- rest of it as it was.
pub write_lldt_header_lem :
    (output : List ℕ) (data_seq record_count : ℕ)
    → data_header_size ≤ length output
    → write_lldt_header output data_seq record_count
      ≡ header_bytes data_seq record_count ++ drop data_header_size output
unfolding write_lldt_header
write_lldt_header_lem output data_seq record_count h =
    let s₁ = store_be output [] 0 (output, 0) 4 magic_lldt (omega arith) start in
    let s₂ = store_be output _ 4 _ 1 protocol_version (omega arith) s₁ in
    let s₃ = store_be output _ 5 _ 2 data_header_size (omega arith) s₂ in
    let s₄ = store_be output _ 7 _ 8 data_seq (omega arith) s₃ in
    let s₅ = store_be output _ 15 _ 2 record_count (omega arith) s₄ in
    let s₆ = store_be output _ 17 _ 1 0 (omega arith) s₅ in
    let s₇ = store_be output _ 18 _ 1 0 (omega arith) s₆ in
    let s₈ = store_be output _ 19 _ 1 0 (omega arith) s₇ in
    let s₉ = store_be output _ 20 _ 1 0 (omega arith) s₈ in
    (store_be output _ 21 _ 1 0 (omega arith) s₉).bytes
  where
    start : Stored output [] 0 (output, 0)
    start = record { bytes = refl; offset = refl; len = refl }

pub length-header_bytes :
    (data_seq record_count : ℕ) → length (header_bytes data_seq record_count) ≡ 22
length-header_bytes data_seq record_count = refl
