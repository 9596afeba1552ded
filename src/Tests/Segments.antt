-- ===== src/Tests/Segments.antt =====
-- A segment that is created and moved.
use low_latency_data_transfe.Base.{◌≡◌, refl, [], ◌∷◌, true, some, none}
use low_latency_data_transfe.Options.{codes}
use low_latency_data_transfe.Segment.{Answers, Segment, shm_open, ftruncate, mmap, open_segment}
use low_latency_data_transfe.Segment.Once.{IsOpened, open_segment-IsOpened}

abbrev answers : Answers
answers = record { fd = some 3; truncated = true; base = some 4096 }

abbrev segment : Segment
segment = record { name = codes "/ring"; fd = some 3; base = some 4096; size = 384 }

opened : (open_segment answers (codes "/ring") 384 true).0 ≡ some segment
unfolding open_segment
opened = refl

open_segment-IsOpened_example : IsOpened answers (codes "/ring") 384 true segment
open_segment-IsOpened_example =
    open_segment-IsOpened answers (codes "/ring") 384 true segment opened

-- Where the memory cannot be mapped.
unmapped_example :
    open_segment (record answers { base = none }) (codes "/ring") 384 true
    ≡ (none, shm_open (codes "/ring") true ∷ (ftruncate 3 384 ∷ (mmap 384 3 ∷ [])))
unfolding open_segment
unmapped_example = refl
