-- ===== src/Metrics/Csv.antt =====
-- `Accumulator::dump_csv` of harness/include/metrics.h, and what a reader of the file gets.
use low_latency_data_transfe.Base.{
  ℕ, ◌+◌, ◌-◌, ◌*◌, ◌<◌, ◌≡◌, refl, ap, ◌∙◌, List, [], ◌∷◌, ◌++◌, append_assoc, Bool, true, false,
  Option, none, some, ◌==◌, if◌then◌else◌, arith,
}
use low_latency_data_transfe.Config.{Str}
use low_latency_data_transfe.Options.{codes}
use low_latency_data_transfe.Output.{decimal_text}
use low_latency_data_transfe.Output.Decimal.{decimal_text_lem}
use low_latency_data_transfe.Metrics.{Sample, Accumulator}

unfoldable pub csv_row : Sample → Str
unfolding decimal_text
csv_row s = decimal_text s.seq_id ++ 44 ∷ (decimal_text s.latency_ns ++ 10 ∷ [])

unfoldable pub csv_rows : List Sample → Str
unfolding csv_row
csv_rows [] = []
csv_rows (s ∷ ss) = csv_row s ++ csv_rows ss

-- What is written to the file, if it can be opened, and whether the dump succeeds; `opened` and
-- `closed` say whether `fopen` and `fclose` do.
unfoldable pub dump_csv : Bool → Bool → Accumulator → Option Str × Bool
unfolding csv_rows
dump_csv opened closed a =
    if opened
    then (some (codes "seq,latency_ns\n" ++ csv_rows a.samples), closed)
    else (none, false)

-- A reader of rows, with the number in front of the comma and the number that is being read.
abbrev read_rows : ℕ → ℕ → Str → List Sample
read_rows seq n [] = []
read_rows seq n (c ∷ cs) =
    let digit = read_rows seq (n * 10 + (c - 48)) cs in
    let comma = read_rows n 0 cs in
    let newline = read_rows 0 0 cs in
    if c == 44
    then comma
    else if c == 10
    then record { seq_id = seq; latency_ns = n } ∷ newline
    else digit

-- A reader of the file: the rows behind the first line.
abbrev pub read_csv : Str → List Sample
read_csv [] = []
read_csv (c ∷ cs) = let line = read_csv cs in if c == 10 then read_rows 0 0 cs else line

read_rows-digit :
    (seq n d : ℕ) (rest : Str)
    → d < 10
    → read_rows seq n ((48 + d) ∷ rest) ≡ read_rows seq (n * 10 + d) rest
read_rows-digit seq n d rest h = ground arith

read_rows-csv_row :
    (s : Sample) (rest : Str) → read_rows 0 0 (csv_row s ++ rest) ≡ s ∷ read_rows 0 0 rest
unfolding csv_row
read_rows-csv_row s rest =
    ap (read_rows 0 0)
      (append_assoc (decimal_text s.seq_id) (44 ∷ (decimal_text s.latency_ns ++ 10 ∷ [])) rest)
    ∙ decimal_text_lem (read_rows 0) (read_rows-digit 0) s.seq_id _
    ∙ ap (read_rows s.seq_id 0) (append_assoc (decimal_text s.latency_ns) (10 ∷ []) rest)
    ∙ decimal_text_lem (read_rows s.seq_id) (read_rows-digit s.seq_id) s.latency_ns _

read_rows-csv_rows : (ss : List Sample) → read_rows 0 0 (csv_rows ss) ≡ ss
unfolding csv_rows
read_rows-csv_rows [] = refl
read_rows-csv_rows (s ∷ ss) = read_rows-csv_row s (csv_rows ss) ∙ ap (◌∷◌ s) (read_rows-csv_rows ss)

pub dump_csv-refused : (closed : Bool) (a : Accumulator) → dump_csv false closed a ≡ (none, false)
unfolding dump_csv
dump_csv-refused closed a = refl

-- To a file that can be opened, the dump writes a text that has the samples stored, in their order,
-- for a reader of comma-separated decimal numbers below a first line; and it succeeds exactly if the
-- file can be closed.
pub dump_csv-read_csv :
    (closed : Bool) (a : Accumulator)
    → (text : Str) × (dump_csv true closed a ≡ (some text, closed)) × (read_csv text ≡ a.samples)
unfolding dump_csv
dump_csv-read_csv closed a =
    (codes "seq,latency_ns\n" ++ csv_rows a.samples, refl, read_rows-csv_rows a.samples)
