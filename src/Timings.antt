-- ===== src/Timings.antt =====
-- src/libwebvtt/parser.c: `webvtt_collect_timestamp` and `webvtt_collect_timings_and_settings`, on the
-- line of a cue's times as the list of its bytes. `heed` is the caller's error function: whether it
-- answers a report with a number that is not negative, so that the parser goes on.

pub mod Total
pub mod Times
use webvtt.Base.{
  ℕ, ◌+◌, Bool, true, false, not, ◌&&◌, ◌||◌, Option, none, some, List, [], ◌∷◌, ◌++◌, Bytes, ◌==◌,
  if◌then◌else◌, peek, drop,
}
use webvtt.Cue.{Cue, bad_timestamp}
use webvtt.Cue.Apply.{Report, Walk, validate_set_settings}
use webvtt.Status.{
  Status, success, bad_cue, parse_error, failed, expected_timestamp, malformed_timestamp,
  expected_whitespace,
}
use webvtt.Text.{isspace, skip_whitespace}
use webvtt.Timestamp.{Stamp, parse_timestamp}

-- What `webvtt_collect_timestamp` returns and leaves: the status, `*result`, the column, the text at
-- `*position`, and the reports that were made.
pub record Collected : Type 0 where
  pub status : Status
  pub time : ℕ
  pub column : ℕ
  pub rest : Bytes
  pub reports : List Report

-- The status, the cue, the column, and the reports in order.
pub record Timings : Type 0 where
  pub status : Status
  pub cue : Cue
  pub column : ℕ
  pub reports : List Report

abbrev pub settled : List Report → Option Walk → Option Timings
settled reports none = none
settled reports (some w) =
    some
      (record { status = success; cue = w.cue; column = w.column; reports = reports ++ w.reports })

-- `strstr( text, "-->" ) == text`.
pub separated : Bytes → Bool
separated (a ∷ b ∷ c ∷ s) = a == b'-' && b == b'-' && c == b'>'
separated _ = false

module _ (heed : Report → Bool) (line : ℕ) where
  take_stamp : ℕ → Bytes → Stamp → Collected
  unfolding bad_timestamp
  take_stamp column input t =
      let missing : Report = record { error = expected_timestamp; line = line; column = column } in
      let malformed : Report = record {
        error = malformed_timestamp;
        line = line;
        column = column;
      } in
      let ahead : List Report → Collected = λ reports. record {
        status = success;
        time = t.time;
        column = column + t.length;
        rest = drop (t.length) input;
        reports = reports;
      } in
      let stop : Status → List Report → Collected = λ s reports. record {
        status = s;
        time = t.time;
        column = column;
        rest = input;
        reports = reports;
      } in
      if t.valid
      then ahead []
      else if bad_timestamp (t.time)
      then stop (if heed missing then bad_cue else parse_error) (missing ∷ [])
      else if heed malformed
      then ahead (malformed ∷ [])
      else stop bad_cue (malformed ∷ [])

  unfoldable pub collect_timestamp : ℕ → Bytes → Collected
  unfolding take_stamp
  collect_timestamp column input = take_stamp column input (parse_timestamp input)

  -- What follows the second timestamp.
  pub after_until : Cue → ℕ → Bytes → List Report → Option Timings
  unfolding isspace
  after_until cue column input reports =
      let unspaced : Report = record {
        error = expected_whitespace;
        line = line;
        column = column;
      } in
      let apart = peek input == 0 || isspace (peek input) in
      let settings = validate_set_settings (some (line, column)) cue input in
      if apart
      then settled reports settings
      else if heed unspaced
      then settled (reports ++ unspaced ∷ []) settings
      else some (record {
        status = parse_error;
        cue = cue;
        column = column;
        reports = reports ++ unspaced ∷ [];
      })

  -- What follows the separator and the white space behind it.
  pub until_part : Cue → List Report → Collected → Option Timings
  unfolding after_until
  until_part cue reports b =
      let timed = record cue { until = b.time } in
      let rest = after_until timed b.column b.rest (reports ++ b.reports) in
      if failed b.status
      then some (record {
        status = b.status;
        cue = timed;
        column = b.column;
        reports = reports ++ b.reports;
      })
      else rest

  -- What follows the first timestamp.
  pub from_part : Cue → Collected → Option Timings
  unfolding until_part separated skip_whitespace
  from_part cue a =
      let timed = record cue { from = a.time } in
      let (n, input) = skip_whitespace a.rest in
      let (k, behind) = skip_whitespace (drop 3 input) in
      let rest = until_part timed a.reports (collect_timestamp (a.column + n + 3 + k) behind) in
      if failed a.status
      then some (record { status = a.status; cue = timed; column = a.column; reports = a.reports })
      else if not (separated input)
      then some
          (record { status = parse_error; cue = timed; column = a.column + n; reports = a.reports })
      else rest

  unfoldable pub collect_timings_and_settings : ℕ → Cue → Bytes → Option Timings
  unfolding from_part skip_whitespace
  collect_timings_and_settings column cue input =
      from_part cue (collect_timestamp column (skip_whitespace input).1)
