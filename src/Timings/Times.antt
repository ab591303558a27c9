-- ===== src/Timings/Times.antt =====
-- A line that spells two times, through `webvtt_collect_timings_and_settings` (src/libwebvtt/parser.c).
use webvtt.Base.{
  ℕ, ◌+◌, ◌≤◌, ◌<◌, ◌≡◌, refl, ◌∙◌, sym, ap, Bool, true, false, ◌||◌, some, [], ◌∷◌, ◌++◌, Bytes,
  ◌==◌, peek, drop, arith, length, length-append, append_assoc, codes,
}
use webvtt.Cue.{Cue}
use webvtt.Cue.Apply.{Report, Walk, validate_set_settings}
use webvtt.Cue.Apply.Total.{validate_set_settings_total}
use webvtt.Status.{success}
use webvtt.Text.{isdigit, isspace, skip_whitespace}
use webvtt.Timestamp.{parse_timestamp, word_64}
use webvtt.Timestamp.Digits.{value}
use webvtt.Timestamp.RoundTrip.{IsNumeral, total, long_text, peek_digits, parse_timestamp_hours}
use webvtt.Timings.{
  collect_timestamp, Timings, settled, after_until, until_part, from_part,
  collect_timings_and_settings,
}

-- A time as an author writes it, with hours.
pub record Time : Type 0 where
  pub hours : Bytes
  pub minutes : Bytes
  pub seconds : Bytes
  pub fraction : Bytes

abbrev pub spell : Time → Bytes → Bytes
spell t rest = long_text t.hours t.minutes t.seconds t.fraction rest

abbrev pub milliseconds : Time → ℕ
milliseconds t = total (value t.hours) (value t.minutes) (value t.seconds) (value t.fraction)

-- Two digits for the minutes and seconds, at most 59, three for the fraction, and hours that fit.
pub record IsTime (t : Time) : Type 0 where
  pub hours : IsNumeral t.hours
  pub minutes : IsNumeral t.minutes
  pub seconds : IsNumeral t.seconds
  pub fraction : IsNumeral t.fraction
  pub two_minutes : length t.minutes ≡ 2
  pub two_seconds : length t.seconds ≡ 2
  pub three_digits : length t.fraction ≡ 3
  pub an_hour : value t.minutes ≤ 59
  pub a_minute : value t.seconds ≤ 59
  pub fits : milliseconds t < word_64

abbrev pub size : Time → ℕ
size t = length t.hours + length t.minutes + length t.seconds + length t.fraction + 3

stamp_of :
    (t : Time) (rest : Bytes)
    → IsTime t
    → isdigit (peek rest) ≡ false
    → parse_timestamp (spell t rest)
      ≡ record { valid = true; length = size t; time = milliseconds t }
stamp_of t rest h stop =
    let (time, taken, valid) =
      parse_timestamp_hours t.minutes t.seconds t.fraction rest h.minutes h.seconds h.fraction stop
        t.hours h.hours in
    let time' : (parse_timestamp (spell t rest)).time ≡ milliseconds t =
      time ∙ omega (arith, h.fits) in
    let valid' : (parse_timestamp (spell t rest)).valid ≡ true =
      valid ∙ ground (arith, h.two_minutes, h.two_seconds, h.three_digits, h.an_hour, h.a_minute) in
    cc

drop_append : (a b : Bytes) → drop (length a) (a ++ b) ≡ b
drop_append [] b = refl
drop_append (c ∷ a) b = drop_append a b

spell_append : (t : Time) (rest : Bytes) → spell t rest ≡ spell t [] ++ rest
spell_append t rest = rw append_assoc (rw append_assoc (rw append_assoc (rw append_assoc refl)))

length-spell : (t : Time) → length (spell t []) ≡ size t
length-spell t =
    let l4 = length-append t.fraction [] in
    let l3 = length-append t.seconds (b'.' ∷ (t.fraction ++ [])) in
    let l2 = length-append t.minutes (b':' ∷ (t.seconds ++ (b'.' ∷ (t.fraction ++ [])))) in
    let l1 =
      length-append t.hours
        (b':' ∷ (t.minutes ++ (b':' ∷ (t.seconds ++ (b'.' ∷ (t.fraction ++ [])))))) in
    omega (arith, l1, l2, l3, l4)

drop-spell : (t : Time) (rest : Bytes) → drop (size t) (spell t rest) ≡ rest
drop-spell t rest = rw (sym (length-spell t), spell_append t rest) (drop_append (spell t []) rest)

digit_stays : (s : Bytes) → isdigit (peek s) ≡ true → skip_whitespace s ≡ (0, s)
unfolding skip_whitespace isdigit isspace
digit_stays [] h = absurd (ground arith)
digit_stays (c ∷ s) h =
    let other : isspace c ≡ false = unfold isspace in ground arith in
    unfold isspace in rw other refl

first_digit : (t : Time) (rest : Bytes) → IsTime t → isdigit (peek (spell t rest)) ≡ true
first_digit t rest h = peek_digits t.hours _ h.hours.digits h.hours.nonempty

abbrev arrow : Bytes → Bytes
arrow rest = codes " --> " ++ rest

abbrev pub times_line : Time → Time → Bytes → Bytes
times_line t u rest = spell t (arrow (spell u rest))

module _ (heed : Report → Bool) (line : ℕ) where
  collect_spell :
      (t : Time) (rest : Bytes) (column : ℕ)
      → IsTime t
      → isdigit (peek rest) ≡ false
      → collect_timestamp heed line column (spell t rest) ≡ record {
        status = success;
        time = milliseconds t;
        column = column + size t;
        rest = rest;
        reports = [];
      }
  unfolding collect_timestamp
  collect_spell t rest column h stop = rw (stamp_of t rest h stop, drop-spell t rest) refl

  after_until_apart :
      (cue : Cue) (column : ℕ) (rest : Bytes)
      → (peek rest == 0 || isspace (peek rest)) ≡ true
      → after_until heed line cue column rest []
        ≡ settled [] (validate_set_settings (some (line, column)) cue rest)
  unfolding after_until
  after_until_apart cue column rest h = rw h refl

  until_part_success :
      (cue : Cue) (time column : ℕ) (rest : Bytes)
      → until_part heed line cue []
          (record { status = success; time = time; column = column; rest = rest; reports = [] })
        ≡ after_until heed line (record cue { until = time }) column rest []
  unfolding until_part
  until_part_success cue time column rest = refl

  from_part_success :
      (cue : Cue) (time column : ℕ) (u : Time) (rest : Bytes)
      → IsTime u
      → from_part heed line cue (record {
        status = success;
        time = time;
        column = column;
        rest = arrow (spell u rest);
        reports = [];
      })
        ≡ until_part heed line
            (record cue { from = time })
            []
            (collect_timestamp heed line (column + 1 + 3 + 1) (spell u rest))
  unfolding from_part isspace
  from_part_success cue time column u rest h =
      rw (digit_stays (spell u rest) (first_digit u rest h)) refl

  line_lem :
      (cue : Cue) (column : ℕ) (input : Bytes)
      → isdigit (peek input) ≡ true
      → collect_timings_and_settings heed line column cue input
        ≡ from_part heed line cue (collect_timestamp heed line column input)
  unfolding collect_timings_and_settings
  line_lem cue column input h = rw (digit_stays input h) refl

  timed_line :
      (cue : Cue) (column : ℕ) (t u : Time) (rest : Bytes)
      → IsTime t
      → IsTime u
      → (peek rest == 0 || isspace (peek rest)) ≡ true
      → collect_timings_and_settings heed line column cue (times_line t u rest)
        ≡ settled [] (
            validate_set_settings
              (some (line, column + size t + 1 + 3 + 1 + size u))
              (record cue { from = milliseconds t; until = milliseconds u })
              rest)
  timed_line cue column t u rest ht hu apart =
      let stop : isdigit (peek rest) ≡ false = unfold isspace isdigit in ground arith in
      line_lem cue column (times_line t u rest) (first_digit t _ ht)
      ∙ ap (from_part heed line cue)
          (collect_spell t (arrow (spell u rest)) column ht (unfold isdigit in refl))
      ∙ from_part_success cue (milliseconds t) (column + size t) u rest hu
      ∙ ap (until_part heed line (record cue { from = milliseconds t }) [])
          (collect_spell u rest _ hu stop)
      ∙ until_part_success _ (milliseconds u) _ rest
      ∙ after_until_apart _ _ rest apart

  -- Let a line spell two times with hours and ` --> ` between them, with two digits for the minutes
  -- and seconds, at most 59, three for the fraction, and a number of milliseconds below 2 ^ 64; and
  -- let white space follow, or nothing. Then reading the line succeeds: the cue has the two numbers of
  -- milliseconds as its times, and besides them the settings that the rest of the line gives it; the
  -- reports are those of the settings.
  pub collect_timings_and_settings_times :
      (cue : Cue) (column : ℕ) (t u : Time) (rest : Bytes)
      → IsTime t
      → IsTime u
      → (peek rest == 0 || isspace (peek rest)) ≡ true
      → (w : Walk) × (r : Timings) × (validate_set_settings
            (some (line, column + size t + 5 + size u))
            (record cue { from = milliseconds t; until = milliseconds u })
            rest
          ≡ some w)
        × (collect_timings_and_settings heed line column cue (times_line t u rest) ≡ some r)
        × (r.status ≡ success)
        × (r.cue ≡ w.cue)
        × (r.cue.from ≡ milliseconds t)
        × (r.cue.until ≡ milliseconds u)
        × (r.reports ≡ w.reports)
  collect_timings_and_settings_times cue column t u rest ht hu apart =
      let timed = record cue { from = milliseconds t; until = milliseconds u } in
      let (w, e, past, keeps) =
        validate_set_settings_total (some (line, column + size t + 5 + size u)) timed rest in
      let sum : column + size t + 1 + 3 + 1 + size u ≡ column + size t + 5 + size u = omega arith in
      let whole = timed_line cue column t u rest ht hu apart in
      (
        w,
        record { status = success; cue = w.cue; column = w.column; reports = w.reports },
        e,
        whole ∙ rw (sum, e) refl,
        refl,
        refl,
        keeps.from,
        keeps.until,
        refl,
      )
