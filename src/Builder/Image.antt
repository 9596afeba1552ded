-- ===== src/Builder/Image.antt =====
-- What a builder's memory is: 22 bytes for the header, the frames appended so far, and free space.
use mathlib.Core.Path.{ap₂}
use low_latency_data_transfe.Base.{
  ℕ, ◌+◌, ◌^◌, ◌≤◌, ◌<◌, ◌≡◌, refl, sym, ap, ◌∙◌, List, [], ◌∷◌, ◌++◌, take, drop, length, write_at,
  u16, arith, concat, write_at-append, concat-append, append_assoc, length-append, length-drop,
  length-take, drop-drop, drop-eq, drop-append, take-append, write_at_lem, append-nil, le→ltb, ◌↔◌,
  ◌⊎◌, inl, inr, lt-or-le,
}
use low_latency_data_transfe.Builder.{
  SourceFrameView, RawDataPacketBuilder, ok, output_too_small, data_header_size,
  raw_data_packet_builder, try_append, finalize,
}
use low_latency_data_transfe.Builder.Header.{header_bytes, write_lldt_header_lem}

-- A builder of `capacity` bytes that holds `frames`.
pub record Builds (capacity data_seq : ℕ) (frames : List (List ℕ)) (b : RawDataPacketBuilder)
    : Type 0 where
  pub head : List ℕ
  pub rest : List ℕ
  pub output : b.output ≡ head ++ (concat frames ++ rest)
  pub head_len : length head ≡ data_header_size
  pub rest_len : length rest ≡ b.remaining_payload_capacity
  pub pos : b.write_pos ≡ data_header_size + length (concat frames)
  pub fits : b.write_pos + b.remaining_payload_capacity ≡ capacity
  pub seq : b.data_seq ≡ data_seq
  pub count : b.record_count ≡ u16 (length frames)

module _ (capacity data_seq : ℕ) (frame_data : List ℕ) (frame : SourceFrameView) where
  -- The constructor: the packet holds the first frame.
  pub raw_data_packet_builder-Builds :
      (output : List ℕ)
      → length output ≡ capacity
      → capacity < 2 ^ 64
      → data_header_size + frame.frame_size ≤ capacity
      → frame.frame_size ≤ length frame_data
      → Builds capacity data_seq
          (take frame.frame_size frame_data ∷ [])
          (raw_data_packet_builder output capacity data_seq frame_data frame)
  unfolding raw_data_packet_builder
  raw_data_packet_builder-Builds output len small fits given = record {
    head = take data_header_size output;
    rest = drop frame.frame_size (drop data_header_size output);
    output =
        write_at_lem output data_header_size f (omega (arith, size))
        ∙ ap (λ t. take data_header_size output ++ t)
            (ap₂ ◌++◌ (sym (append-nil f)) (
              drop-eq output (data_header_size + length f) (data_header_size + frame.frame_size)
                (omega (arith, size))
              ∙ sym (drop-drop frame.frame_size data_header_size output)));
    head_len = length-take data_header_size output (omega arith);
    rest_len = omega (
      arith,
      length-drop frame.frame_size (drop data_header_size output),
      length-drop data_header_size output,
    );
    pos = omega (arith, size, ap length (append-nil f));
    fits = omega arith;
    seq = refl;
    count = refl;
  }
    where
      f : List ℕ
      f = take frame.frame_size frame_data

      size : length f ≡ frame.frame_size
      size = length-take frame.frame_size frame_data given

  -- Appending a frame that fits the free space keeps the builder well formed, with the frame
  -- behind the others.
  pub try_append-Builds :
      (frames : List (List ℕ)) (b : RawDataPacketBuilder)
      → Builds capacity data_seq frames b
      → frame.frame_size ≤ b.remaining_payload_capacity
      → frame.frame_size ≤ length frame_data
      → Builds capacity data_seq
          (frames ++ take frame.frame_size frame_data ∷ [])
          (try_append b frame_data frame).1
  unfolding try_append
  try_append-Builds frames b v fits given =
      rw (le→ltb b.remaining_payload_capacity frame.frame_size fits) record {
        head = v.head;
        rest = drop (length f) v.rest;
        output =
            ap (λ t. write_at t b.write_pos f) (v.output ∙ sym (append_assoc v.head body v.rest))
            ∙ write_at-append (v.head ++ body) v.rest b.write_pos f
                (omega (arith, v.pos, v.head_len, length-append v.head body))
                (omega (arith, size, v.rest_len))
            ∙ append_assoc v.head body _
            ∙ ap (◌++◌ v.head)
                (sym (append_assoc body f _) ∙ ap (λ t. t ++ drop (length f) v.rest) (sym longer));
        head_len = v.head_len;
        rest_len = omega (arith, length-drop (length f) v.rest, v.rest_len, size);
        pos = omega (arith, v.pos, size, ap length longer, length-append body f);
        fits = omega (arith, v.fits);
        seq = v.seq;
        count = omega (arith, v.count, length-append frames (f ∷ []));
      }
    where
      f : List ℕ
      f = take frame.frame_size frame_data

      size : length f ≡ frame.frame_size
      size = length-take frame.frame_size frame_data given

      body : List ℕ
      body = concat frames

      longer : concat (frames ++ f ∷ []) ≡ body ++ f
      longer = concat-append frames f

  -- `try_append` refuses a frame exactly when it is larger than the space left, and then changes
  -- nothing.
  pub try_append-refuses :
      (b : RawDataPacketBuilder)
      → ((try_append b frame_data frame).0 ≡ output_too_small)
        ↔ (b.remaining_payload_capacity < frame.frame_size)
  unfolding try_append
  try_append-refuses b = (λ e. ground arith, λ h. ground arith)

  pub try_append-unchanged :
      (b : RawDataPacketBuilder)
      → (try_append b frame_data frame).0 ≡ output_too_small
      → (try_append b frame_data frame).1 ≡ b
  unfolding try_append
  try_append-unchanged b e = ground arith

-- The two answers of `try_append`.
pub try_append-cases :
    (b : RawDataPacketBuilder) (frame_data : List ℕ) (frame : SourceFrameView)
    → (try_append b frame_data frame ≡ (output_too_small, b))
      ⊎ ((frame.frame_size ≤ b.remaining_payload_capacity)
          × ((try_append b frame_data frame).0 ≡ ok)
          × ((try_append b frame_data frame).1.remaining_payload_capacity + frame.frame_size
              ≡ b.remaining_payload_capacity))
unfolding try_append
try_append-cases b frame_data frame =
    elim (lt-or-le b.remaining_payload_capacity frame.frame_size) [
      | inl over ↦ inl (ground arith)
      | inr fits ↦ inr (fits, ground arith, ground arith)
    ]

module _ (capacity data_seq : ℕ) (frames : List (List ℕ)) (b : RawDataPacketBuilder) where
  -- The bytes of the packet that finalize hands out are the Data header, with the frame count
  -- modulo 2^16, followed by the appended frames in order.
  pub finalize-image :
      Builds capacity data_seq frames b
      → take (finalize b).packet_size (finalize b).bytes
        ≡ header_bytes data_seq (u16 (length frames)) ++ concat frames
  unfolding finalize
  finalize-image v =
      ap (take b.write_pos) image
      ∙ take-append (header_bytes data_seq (u16 (length frames)) ++ concat frames) v.rest
          b.write_pos (omega (arith, v.pos, length-append header (concat frames)))
    where
      header : List ℕ
      header = header_bytes data_seq (u16 (length frames))

      room : data_header_size ≤ length b.output
      room =
          omega
            (arith, ap length v.output, v.head_len, length-append v.head (concat frames ++ v.rest))

      body : drop data_header_size b.output ≡ concat frames ++ v.rest
      body =
          ap (drop data_header_size) v.output
          ∙ drop-append v.head (concat frames ++ v.rest) data_header_size (sym v.head_len)

      image : (finalize b).bytes ≡ (header ++ concat frames) ++ v.rest
      image =
          write_lldt_header_lem b.output b.data_seq b.record_count room
          ∙ ap₂ ◌++◌ (ap₂ header_bytes v.seq v.count) body
          ∙ sym (append_assoc header (concat frames) v.rest)

  pub finalize-size :
      Builds capacity data_seq frames b
      → ((finalize b).packet_size ≡ data_header_size + length (concat frames))
        × ((finalize b).packet_size ≤ capacity)
  unfolding finalize
  finalize-size v = (v.pos, omega (arith, v.fits))

  pub finalize-fields :
      Builds capacity data_seq frames b
      → ((finalize b).data_seq ≡ data_seq) × ((finalize b).record_count ≡ u16 (length frames))
  unfolding finalize
  finalize-fields v = (v.seq, v.count)
