-- ===== src/Statistics/Fields.antt =====
-- What a reader gets from the lines that src/sender_main.cpp and src/receiver_main.cpp print.
use low_latency_data_transfe.Base.{
  ℕ, zero, suc, ◌+◌, ◌-◌, ◌*◌, ◌<◌, ◌≡◌, refl, sym, ap, ◌∙◌, List, [], ◌∷◌, ◌++◌, append_assoc,
  append-nil, Bool, true, false, ◌&&◌, not, Option, none, some, ◌==◌, if◌then◌else◌, arith, get_or,
  length,
}
use low_latency_data_transfe.Config.{Str}
use low_latency_data_transfe.Options.{codes}
use low_latency_data_transfe.Output.{decimal_text}
use low_latency_data_transfe.Output.Decimal.{decimal_text_lem}
use low_latency_data_transfe.Statistics.{row, rows, print_fields, xstats_rows}

-- A reader of lines, with the label that is being read, and the number behind it: a line with a tab
-- gives a field, the others give none.
abbrev read_on : Str → Option ℕ → Str → List (Str × ℕ)
read_on label at [] = []
read_on label none (c ∷ cs) =
    let number = read_on label (some 0) cs in
    let newline = read_on [] none cs in
    let more = read_on (label ++ c ∷ []) none cs in
    if c == 9 then number else if c == 10 then newline else more
read_on label (some n) (c ∷ cs) =
    let newline = read_on [] none cs in
    let digit = read_on label (some (n * 10 + (c - 48))) cs in
    if c == 10 then (label, n) ∷ newline else digit

abbrev pub read_fields : Str → List (Str × ℕ)
read_fields = read_on [] none

-- A label that does not end itself.
abbrev pub is_label : Str → Bool
is_label [] = true
is_label (c ∷ cs) = not (c == 9) && (not (c == 10) && is_label cs)

abbrev pub are_labels : List (Str × ℕ) → Bool
are_labels [] = true
are_labels (f ∷ fs) = is_label (f.0) && are_labels fs

and-true : (a b : Bool) → (a && b) ≡ true → (a ≡ true) × (b ≡ true)
and-true a b h = ground arith

is_label-tail :
    (c : ℕ) (cs : Str)
    → is_label (c ∷ cs) ≡ true
    → ((c == 9) ≡ false) × ((c == 10) ≡ false) × (is_label cs ≡ true)
is_label-tail c cs h = ground arith

read_on-label :
    (before label rest : Str)
    → is_label label ≡ true
    → read_on before none (label ++ 9 ∷ rest) ≡ read_on (before ++ label) (some 0) rest
read_on-label before [] rest h = ap (λ l. read_on l (some 0) rest) (sym (append-nil before))
read_on-label before (c ∷ cs) rest h =
    let (tab, newline, tail) = is_label-tail c cs h in
    simp (tab, newline)
      (read_on-label (before ++ c ∷ []) cs rest tail
        ∙ ap (λ l. read_on l (some 0) rest) (append_assoc before (c ∷ []) cs))

read_on-title :
    (before title rest : Str)
    → is_label title ≡ true
    → read_on before none (title ++ 10 ∷ rest) ≡ read_fields rest
read_on-title before [] rest h = refl
read_on-title before (c ∷ cs) rest h =
    let (tab, newline, tail) = is_label-tail c cs h in
    simp (tab, newline) (read_on-title (before ++ c ∷ []) cs rest tail)

read_on-digit :
    (label : Str) (n d : ℕ) (rest : Str)
    → d < 10
    → read_on label (some n) ((48 + d) ∷ rest) ≡ read_on label (some (n * 10 + d)) rest
read_on-digit label n d rest h = ground arith

read_fields-row :
    (label : Str) (n : ℕ) (rest : Str)
    → is_label label ≡ true
    → read_fields (row label n ++ rest) ≡ (label, n) ∷ read_fields rest
unfolding row
read_fields-row label n rest h =
    ap read_fields (append_assoc label (9 ∷ (decimal_text n ++ 10 ∷ [])) rest)
    ∙ read_on-label [] label _ h
    ∙ ap (read_on label (some 0)) (append_assoc (decimal_text n) (10 ∷ []) rest)
    ∙ decimal_text_lem (λ m. read_on label (some m)) (read_on-digit label) n (10 ∷ rest)

read_fields-rows :
    (fs : List (Str × ℕ)) (rest : Str)
    → are_labels fs ≡ true
    → read_fields (rows fs ++ rest) ≡ fs ++ read_fields rest
unfolding rows
read_fields-rows [] rest h = refl
read_fields-rows (f ∷ fs) rest h =
    let (first, others) = and-true (is_label (f.0)) (are_labels fs) h in
    ap read_fields (append_assoc (row (f.0) (f.1)) (rows fs) rest)
    ∙ read_fields-row (f.0) (f.1) (rows fs ++ rest) first
    ∙ ap (◌∷◌ f) (read_fields-rows fs rest others)

-- Of a titled list, the reader gets the list.
pub read_fields-print_fields :
    (title : Str) (fs : List (Str × ℕ)) (rest : Str)
    → is_label title ≡ true
    → are_labels fs ≡ true
    → read_fields (print_fields title fs ++ rest) ≡ fs ++ read_fields rest
unfolding print_fields
read_fields-print_fields title fs rest t h =
    ap read_fields (append_assoc title (10 ∷ (rows fs ++ 10 ∷ [])) rest)
    ∙ read_on-title [] title _ t
    ∙ ap read_fields (append_assoc (rows fs) (10 ∷ []) rest)
    ∙ read_fields-rows fs (10 ∷ rest) h

-- Names with their values.
abbrev pub named : List Str → List ℕ → List (Str × ℕ)
named [] xstats = []
named (name ∷ names) [] = []
named (name ∷ names) (x ∷ xstats) = (name ++ codes ":", x) ∷ named names xstats

abbrev pub are_names : List Str → Bool
are_names [] = true
are_names (name ∷ names) = is_label name && are_names names

is_label-append : (l m : Str) → is_label l ≡ true → is_label m ≡ true → is_label (l ++ m) ≡ true
is_label-append [] m h h' = h'
is_label-append (c ∷ cs) m h h' =
    let (tab, newline, tail) = is_label-tail c cs h in
    simp (tab, newline, is_label-append cs m tail h') refl

named-are_labels :
    (names : List Str) (xstats : List ℕ)
    → are_names names ≡ true
    → are_labels (named names xstats) ≡ true
named-are_labels [] xstats h = refl
named-are_labels (name ∷ names) [] h = refl
named-are_labels (name ∷ names) (x ∷ xstats) h =
    let (first, others) = and-true (is_label name) (are_names names) h in
    simp (is_label-append name (codes ":") first refl, named-are_labels names xstats others) refl

get_or-tail :
    {A : Type 0} → (x d : A) (xs : List A) (i : ℕ) → get_or (x ∷ xs) (i + 1) d ≡ get_or xs i d
get_or-tail x d xs i = ap (λ j. get_or (x ∷ xs) j d) {x = i + 1} {y = suc i} (omega arith)

xstats_rows-tail :
    (name : Str) (names : List Str) (x : ℕ) (xstats : List ℕ) (i n : ℕ)
    → xstats_rows (name ∷ names) (x ∷ xstats) (i + 1) n ≡ xstats_rows names xstats i n
unfolding xstats_rows
xstats_rows-tail name names x xstats i zero = refl
xstats_rows-tail name names x xstats i (suc n) =
    rw
      (
        get_or-tail name [] names i,
        get_or-tail x 0 xstats i,
        xstats_rows-tail name names x xstats (i + 1) n,
      )
      refl

xstats_rows-named :
    (names : List Str) (xstats : List ℕ)
    → length names ≡ length xstats
    → xstats_rows names xstats 0 (length names) ≡ rows (named names xstats)
unfolding xstats_rows rows
xstats_rows-named [] xstats h = refl
xstats_rows-named (name ∷ names) [] h = absurd (omega arith)
xstats_rows-named (name ∷ names) (x ∷ xstats) h =
    ap (λ rest. row (name ++ codes ":") x ++ rest)
      (xstats_rows-tail name names x xstats 0 (length names)
        ∙ xstats_rows-named names xstats (omega arith))

-- Of the extended statistics, the reader gets the values with the names of the same positions.
pub read_fields-xstats_rows :
    (title : Str) (names : List Str) (xstats : List ℕ)
    → is_label title ≡ true
    → are_names names ≡ true
    → length names ≡ length xstats
    → read_fields (title ++ 10 ∷ xstats_rows names xstats 0 (length names)) ≡ named names xstats
read_fields-xstats_rows title names xstats t h le =
    read_on-title [] title _ t
    ∙ ap read_fields (xstats_rows-named names xstats le ∙ sym (append-nil _))
    ∙ read_fields-rows (named names xstats) [] (named-are_labels names xstats h)
    ∙ append-nil _
