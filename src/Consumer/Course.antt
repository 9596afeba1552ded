-- ===== src/Consumer/Course.antt =====
-- What the loop of harness/src/consumer.cpp does, as seen from outside: which frames it takes, and why
-- it ends.
use low_latency_data_transfe.Base.{
  ℕ, suc, ◌+◌, ◌-◌, ◌≤◌, ◌<◌, ◌≡◌, ◌⊎◌, refl, ap, sub64, inl, inr, List, [], ◌∷◌, Bool, true, false,
  arith, length, write_at, write_at_front, drop, ◌∙◌,
}
use low_latency_data_transfe.Bytes.{load_field}
use low_latency_data_transfe.Message.Raw.{load_field-append}
use low_latency_data_transfe.Metrics.{Sample}
use low_latency_data_transfe.Consumer.{measure, load_framing}
use mathlib.Core.Path.{ap₂}

-- The sample of a frame received at a time: its number, and the time since it was sent, or 0 if that
-- is in the future.
abbrev pub sample_of : List ℕ → ℕ → Sample
sample_of f now = record { seq_id = load_field 0 8 f; latency_ns = now - load_field 8 8 f }

pub measure-sample_of : (now : ℕ) (f : List ℕ) → measure now f ≡ sample_of f now
unfolding measure load_framing
measure-sample_of now f =
    ap (λ n. record { seq_id = load_field 0 8 f; latency_ns = n }) (ground arith)

pub sample_of-write_at :
    (now : ℕ) (buffer f : List ℕ)
    → 16 ≤ length f
    → length f ≤ length buffer
    → sample_of (write_at buffer 0 f) now ≡ sample_of f now
sample_of-write_at now buffer f least room =
    ap (λ b. sample_of b now) (write_at_front buffer f room)
    ∙ ap₂ (λ (seq_id : ℕ) (sent : ℕ). record { seq_id = seq_id; latency_ns = now - sent })
        (load_field-append 0 8 f (drop (length f) buffer) (omega arith))
        (load_field-append 8 8 f (drop (length f) buffer) (omega arith))

-- Frames with the times at which they are received.
abbrev pub frames_of : List (List ℕ × ℕ) → List (List ℕ)
frames_of [] = []
frames_of (a ∷ rest) = a.0 ∷ frames_of rest

abbrev pub samples_of : List (List ℕ × ℕ) → List Sample
samples_of [] = []
samples_of (a ∷ rest) = sample_of (a.0) (a.1) ∷ samples_of rest

pub length-samples_of : (got : List (List ℕ × ℕ)) → length (samples_of got) ≡ length got
length-samples_of [] = refl
length-samples_of (a ∷ rest) = ap suc (length-samples_of rest)

-- What a round brings, at which time: nothing, a frame, or that the reader was overtaken.
pub data Event : Type 0 where
  waited : ℕ → Event
  met : List ℕ → ℕ → Event
  overtaken : ℕ → Event

pub data Ending : Type 0 where
  idle limit running : Ending

abbrev pub is_over : Ending → Bool
is_over idle = true
is_over limit = true
is_over running = false

-- With `n` frames received, the loop is short of its limit, or has none.
abbrev pub Below : ℕ → ℕ → Type 0
Below count n = (count ≡ 0) ⊎ (n < count)

-- The course of a loop that has received `n` frames and made progress at time `t` last: it takes each
-- frame that it meets; it goes on until it has its limit, or until it meets nothing at a time later
-- by more than `idle_ns` than its last progress; else it is still running when the events end.
pub data Course (count idle_ns : ℕ) : ℕ → ℕ → List Event → List (List ℕ × ℕ) → Ending → Type 0 where
  events_end : {t n : ℕ} → Below count n → Course count idle_ns t n [] [] running
  has_limit :
      {t n : ℕ} {events : List Event}
      → 0 < count
      → count ≤ n
      → Course count idle_ns t n events [] limit
  is_idle :
      {t n now : ℕ} {events : List Event}
      → Below count n
      → idle_ns < sub64 now t
      → Course count idle_ns t n (waited now ∷ events) [] idle
  waits_on :
      {t n now : ℕ} {events : List Event} {got : List (List ℕ × ℕ)} {ending : Ending}
      → Below count n
      → sub64 now t ≤ idle_ns
      → Course count idle_ns t n events got ending
      → Course count idle_ns t n (waited now ∷ events) got ending
  catches_up :
      {t n now : ℕ} {events : List Event} {got : List (List ℕ × ℕ)} {ending : Ending}
      → Below count n
      → Course count idle_ns t n events got ending
      → Course count idle_ns t n (overtaken now ∷ events) got ending
  takes :
      {t n now : ℕ} {f : List ℕ} {events : List Event} {got : List (List ℕ × ℕ)} {ending : Ending}
      → Below count n
      → Course count idle_ns now (n + 1) events got ending
      → Course count idle_ns t n (met f now ∷ events) ((f, now) ∷ got) ending

module _ {count idle_ns : ℕ} where
  pub Course-most :
      {t n : ℕ} {events : List Event} {got : List (List ℕ × ℕ)} {ending : Ending}
      → Course count idle_ns t n events got ending
      → length got ≤ length events
  Course-most (events_end b) = omega arith
  Course-most (has_limit pos le) = omega arith
  Course-most (is_idle b late) = omega arith
  Course-most (waits_on b soon c) = omega (arith, Course-most c)
  Course-most (catches_up b c) = omega (arith, Course-most c)
  Course-most (takes b c) = omega (arith, Course-most c)

  pub Course-limited :
      {t n : ℕ} {events : List Event} {got : List (List ℕ × ℕ)} {ending : Ending}
      → Course count idle_ns t n events got ending
      → 0 < count
      → n ≤ count
      → n + length got ≤ count
  Course-limited (events_end b) pos le = omega arith
  Course-limited (has_limit p l) pos le = omega arith
  Course-limited (is_idle b late) pos le = omega arith
  Course-limited (waits_on b soon c) pos le = Course-limited c pos le
  Course-limited (catches_up b c) pos le = Course-limited c pos le
  Course-limited (takes b c) pos le = omega (arith, b, Course-limited c pos (omega (arith, b)))

  -- Without a limit, a course that has ended was idle for too long.
  pub Course-endless :
      {t n : ℕ} {events : List Event} {got : List (List ℕ × ℕ)} {ending : Ending}
      → Course count idle_ns t n events got ending
      → count ≡ 0
      → (ending ≡ running) ⊎ (ending ≡ idle)
  Course-endless (events_end b) none = inl refl
  Course-endless (has_limit p l) none = absurd (omega arith)
  Course-endless (is_idle b late) none = inr refl
  Course-endless (waits_on b soon c) none = Course-endless c none
  Course-endless (catches_up b c) none = Course-endless c none
  Course-endless (takes b c) none = Course-endless c none
