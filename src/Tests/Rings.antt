-- ===== src/Tests/Rings.antt =====
-- The ring's theorems at the rings of `Data`.
use low_latency_data_transfe.Base.{
  ℕ, ◌≡◌, refl, List, [], ◌∷◌, ◌++◌, arith, replicate, take, drop, write_at, true,
}
use low_latency_data_transfe.Ring.{
  attach, publish, read, still, ok, lapped, reset_seqs, region_size,
}
use low_latency_data_transfe.Ring.Window.{IsRing}
use low_latency_data_transfe.Ring.Attach.{attach-IsRing}
use low_latency_data_transfe.Ring.Publish.{publish-IsRing}
use low_latency_data_transfe.Ring.Read.{Answers, read-Answers}
use low_latency_data_transfe.Ring.Writer.{Writer, idle, copying, Step, Reach}
use low_latency_data_transfe.Ring.Loads.{Loads, snapshots}
use low_latency_data_transfe.Ring.Interleaved.{Answered, read-Answered}
use low_latency_data_transfe.Ring.Torn.{overtaken, half_published, read-overtaken}
use low_latency_data_transfe.Tests.Data.{
  bbo, memory, memory_slots, ring₂, ring₃, ring₂-IsRing, ring₃-IsRing,
}

abbrev blank : List ℕ
blank = replicate 96 0

-- Frame 8 is there, frame 7 was overwritten by frame 9.
read_held : (read (still ring₃) 1 1 blank).0 ≡ ok 48
unfolding read attach reset_seqs publish
read_held = refl

read_overwritten : (read (still ring₃) 1 0 blank).0 ≡ lapped 1
unfolding read attach reset_seqs publish
read_overwritten = refl

region_of_1024 : region_size 576 1024 ≡ 655488
unfolding region_size
region_of_1024 = refl

two_slots_attached : IsRing 96 1 [] (attach 96 memory 2 true).0 × ((attach 96 memory 2 true).1 ≡ 1)
two_slots_attached = attach-IsRing 96 1 memory (omega arith) refl memory_slots

publish-IsRing_example : IsRing 96 1 (bbo 7 ∷ bbo 8 ∷ bbo 9 ∷ []) (publish ring₂ 1 (bbo 9) 48)
publish-IsRing_example =
    publish-IsRing 96 1 (bbo 7 ∷ bbo 8 ∷ []) ring₂ (bbo 9) (omega arith) (omega arith) ring₂-IsRing

quiet-Answers : Answers 2 (bbo 7 ∷ bbo 8 ∷ bbo 9 ∷ []) 0 blank (read (still ring₃) 1 0 blank)
quiet-Answers =
    read-Answers 96 1 (bbo 7 ∷ bbo 8 ∷ bbo 9 ∷ []) ring₃ blank 0 ring₃-IsRing (omega arith)
      (omega arith)

-- The reader has copied four bytes of frame 7 when frame 9 is stored over it.
read-overtaken_example :
    read (overtaken ring₂ (half_published ring₂ 1 (bbo 9)) 4) 1 0 blank
    ≡ (ok 48, write_at blank 0 (take 4 (bbo 7) ++ drop 4 (bbo 9)))
read-overtaken_example =
    read-overtaken 96 1 (bbo 7 ∷ bbo 8 ∷ []) ring₂ 0 4 (bbo 7) (bbo 9) blank ring₂-IsRing refl refl
      refl (omega arith) (omega arith) (omega arith)

-- Frame 8 is read while frame 9 is stored over frame 7.
abbrev pub storing : ℕ → Writer
storing j = copying (bbo 7 ∷ bbo 8 ∷ []) ring₂ (bbo 9) j

pub begins : Reach 1 96 (idle (bbo 7 ∷ bbo 8 ∷ []) ring₂) (storing 0)
begins = Reach.next Reach.here (Step.begin _ ring₂ (bbo 9) (omega arith))

pub stores : Reach 1 96 (storing 0) (storing 1)
stores = Reach.next Reach.here (Step.copy _ ring₂ (bbo 9) 0 (omega arith))

abbrev pub loads : Loads 1 96
loads = record {
  at_seq = idle (bbo 7 ∷ bbo 8 ∷ []) ring₂;
  at_len = storing 0;
  at_copy = λ b. storing 0;
  at_recheck = storing 1;
  at_edge = storing 1;
  to_len = begins;
  to_copy = λ b. Reach.here;
  to_recheck = λ b. stores;
  to_edge = Reach.here;
}

read-Answered_example :
    Answered 2 loads.at_seq loads.at_recheck loads.at_edge 1 blank
      (read (snapshots 1 96 loads) 1 1 blank)
read-Answered_example = read-Answered 96 1 loads 1 blank ring₂-IsRing (omega arith) (omega arith)
