-- ===== src/Receiver/Writer.antt =====
-- src/receiver_shm_writer.cpp: the frames of an admitted packet go to the receiver's ring.
use mathlib.Core.Path.{ap₂, subst₂}
use low_latency_data_transfe.Base.{
  ℕ, zero, suc, ◌+◌, ◌-◌, ◌^◌, ◌≤◌, ◌<◌, ◌≡◌, refl, sym, ap, ◌∙◌, List, [], ◌∷◌, ◌++◌, drop, length,
  arith, concat, append_assoc, append-nil, length-append, drop-append, u32,
}
use low_latency_data_transfe.Message.{Profile, IsProfile, sizeof_header}
use low_latency_data_transfe.Builder.{CanonicalDataPacketView}
use low_latency_data_transfe.Ring.{Region, publish}
use low_latency_data_transfe.Ring.Window.{IsRing}
use low_latency_data_transfe.Ring.Publish.{publish-IsRing, publish-take}

-- The loop of `ReceiverShmWriter::write`: `frame` is the memory from the pointer on, and the
-- size an `std::uint32_t`.
unfoldable pub write_frames : Profile → Region → ℕ → ℕ → List ℕ → Region
write_frames p r mask zero frame = r
write_frames p r mask (suc n) frame =
    let size = u32 (p.frame_size frame) in
    write_frames p (publish r mask frame size) mask n (drop size frame)

-- `ReceiverShmWriter::write`
unfoldable pub write : Profile → Region → ℕ → CanonicalDataPacketView → Region
unfolding write_frames
write p r mask packet = write_frames p r mask packet.record_count (drop 22 packet.bytes)

-- A complete source frame: its header says its own length, which fits a slot.
pub record IsFrame (p : Profile) (f : List ℕ) : Type 0 where
  pub header : sizeof_header ≤ length f
  pub size : u32 (p.frame_size f) ≡ length f
  pub fits : length f ≤ p.max_frame

abbrev pub AllFrames : Profile → List (List ℕ) → Type 0
AllFrames p [] = Unit {0}
AllFrames p (f ∷ fs) = IsFrame p f × AllFrames p fs

-- One round of the loop, where the memory starts with the frame `f`.
write_frames-step :
    (p : Profile) (r : Region) (mask n : ℕ) (f rest : List ℕ)
    → u32 (p.frame_size (f ++ rest)) ≡ length f
    → write_frames p r mask (suc n) (f ++ rest)
      ≡ write_frames p (publish r mask f (length f)) mask n rest
unfolding write_frames
write_frames-step p r mask n f rest e =
    ap (λ s. write_frames p (publish r mask (f ++ rest) s) mask n (drop s (f ++ rest))) e
    ∙ ap₂ (λ a b. write_frames p a mask n b) (publish-take r mask f rest)
        (drop-append f rest (length f) refl)

module _ (p : Profile) (law : IsProfile p) (k : ℕ) where
  -- The loop publishes the frames at the pointer, whatever follows them.
  pub write_frames-IsRing :
      (history : List (List ℕ)) (r : Region) (frames : List (List ℕ)) (rest : List ℕ)
      → AllFrames p frames
      → length history + length frames < 2 ^ 64
      → IsRing p.max_frame k history r
      → IsRing p.max_frame k
          (history ++ frames)
          (write_frames p r (2 ^ k - 1) (length frames) (concat frames ++ rest))
  unfolding write_frames
  write_frames-IsRing history r [] rest all small ring = rw (append-nil history) ring
  write_frames-IsRing history r (f ∷ fs) rest all small ring =
      subst₂ (IsRing p.max_frame k) (append_assoc history (f ∷ []) fs) (sym round) (
        write_frames-IsRing (history ++ f ∷ []) (publish r (2 ^ k - 1) f (length f)) fs rest all.1
          (omega (arith, length-append history (f ∷ [])))
          (publish-IsRing p.max_frame k history r f all.0.fits (omega arith) ring))
    where
      tail : List ℕ
      tail = concat fs ++ rest

      round :
          write_frames p r (2 ^ k - 1) (suc (length fs)) ((f ++ concat fs) ++ rest)
          ≡ write_frames p (publish r (2 ^ k - 1) f (length f)) (2 ^ k - 1) (length fs) tail
      round =
          ap (write_frames p r (2 ^ k - 1) (suc (length fs))) (append_assoc f (concat fs) rest)
          ∙ write_frames-step p r (2 ^ k - 1) (length fs) f tail
              (ap u32 (law.frame_size-append f tail all.0.header) ∙ all.0.size)

  -- Writing a packet whose payload is a sequence of complete frames publishes those frames to the
  -- ring, in order, and no others, with fewer than 2^64 publications.
  pub write-IsRing :
      (history : List (List ℕ)) (r : Region) (frames : List (List ℕ)) (head rest : List ℕ)
      (packet : CanonicalDataPacketView)
      → packet.bytes ≡ head ++ (concat frames ++ rest)
      → length head ≡ 22
      → packet.record_count ≡ length frames
      → AllFrames p frames
      → length history + length frames < 2 ^ 64
      → IsRing p.max_frame k history r
      → IsRing p.max_frame k (history ++ frames) (write p r (2 ^ k - 1) packet)
  unfolding write
  write-IsRing history r frames head rest packet image len count all small ring =
      rw (count, image, drop-append head (concat frames ++ rest) 22 (sym len))
        (write_frames-IsRing history r frames rest all small ring)
