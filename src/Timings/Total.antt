-- ===== src/Timings/Total.antt =====
-- What becomes of the line of a cue's times (src/libwebvtt/parser.c), whatever its bytes are.
use webvtt.Base.{
  ℕ, ◌+◌, ◌≡◌, refl, ◌∙◌, ◌⊎◌, inl, inr, Bool, Bool-cases, ◌||◌, Option, some, List, [], ◌∷◌, ◌++◌,
  Bytes, ◌==◌, peek, drop, arith,
}
use webvtt.Cue.{Cue}
use webvtt.Cue.Apply.{Report, Walk}
use webvtt.Cue.Apply.Total.{validate_set_settings_total}
use webvtt.Cue.Setters.Frame.{Keeps}
use webvtt.Status.{Status, success, bad_cue, parse_error, failed, expected_whitespace}
use webvtt.Text.{isspace, skip_whitespace}
use webvtt.Timestamp.{Stamp, parse_timestamp}
use webvtt.Timings.{
  Collected, take_stamp, collect_timestamp, Timings, settled, after_until, until_part, separated,
  from_part, collect_timings_and_settings,
}

-- The statuses that the caller of these routines tells apart.
abbrev pub IsOutcome : Status → Type 0
IsOutcome s = (s ≡ success) ⊎ (s ≡ bad_cue) ⊎ (s ≡ parse_error)

-- The texts and the header flags of the cue are as they were.
abbrev pub KeepsText : Cue → Cue → Type 0
KeepsText a b =
    (b.id ≡ a.id)
    × (b.body ≡ a.body)
    × (b.flags.have_id ≡ a.flags.have_id)
    × (b.flags.have_cueparams ≡ a.flags.have_cueparams)

abbrev pub Ends : Cue → Option Timings → Type 0
Ends cue o = (r : Timings) × (o ≡ some r) × IsOutcome r.status × KeepsText cue r.cue

module _ (heed : Report → Bool) (line : ℕ) where
  collect-IsOutcome :
      (column : ℕ) (input : Bytes) (t : Stamp)
      → IsOutcome (take_stamp heed line column input t).status
  unfolding take_stamp
  collect-IsOutcome column input t = ground arith

  settled-Ends :
      (cue timed : Cue) (reports : List Report) (o : Option Walk)
      → KeepsText cue timed
      → (w : Walk) × (o ≡ some w) × Keeps timed w.cue
      → Ends cue (settled reports o)
  settled-Ends cue timed reports o (i, b, h, p) (w, e, k) =
      rw e (_, refl, inl refl, (k.id ∙ i, k.body ∙ b, k.have_id ∙ h, k.have_cueparams ∙ p))

  after_until-Ends :
      (cue timed : Cue) (column : ℕ) (input : Bytes) (reports : List Report)
      → KeepsText cue timed
      → Ends cue (after_until heed line timed column input reports)
  unfolding after_until
  after_until-Ends cue timed column input reports k =
      let (w, e, past, keeps) = validate_set_settings_total (some (line, column)) timed input in
      let unspaced : Report = record {
        error = expected_whitespace;
        line = line;
        column = column;
      } in
      let over = settled-Ends cue timed reports _ k (w, e, keeps) in
      let noted = settled-Ends cue timed (reports ++ unspaced ∷ []) _ k (w, e, keeps) in
      elim (Bool-cases (peek input == 0 || isspace (peek input))) [
        | inl apart ↦ rw apart over
        | inr close ↦ elim (Bool-cases (heed unspaced)) [
          | inl on ↦ rw (close, on) noted
          | inr off ↦ rw (close, off) (_, refl, inr (inr refl), k)
        ]
      ]

  until_part-Ends :
      (cue timed : Cue) (reports : List Report) (b : Collected)
      → IsOutcome b.status
      → KeepsText cue timed
      → Ends cue (until_part heed line timed reports b)
  unfolding until_part
  until_part-Ends cue timed reports b s k =
      let timed' = record timed { until = b.time } in
      let later = after_until-Ends cue timed' b.column b.rest (reports ++ b.reports) k in
      elim (Bool-cases (failed b.status)) [
        | inl bad ↦ rw bad (_, refl, s, k)
        | inr good ↦ rw good later
      ]

  from_part-Ends :
      (cue : Cue) (a : Collected) → IsOutcome a.status → Ends cue (from_part heed line cue a)
  unfolding from_part collect_timestamp
  from_part-Ends cue a s =
      let timed = record cue { from = a.time } in
      let same : KeepsText cue timed = (refl, refl, refl, refl) in
      let (n, input) = skip_whitespace a.rest in
      let (m, behind) = skip_whitespace (drop 3 input) in
      let b = collect_timestamp heed line (a.column + n + 3 + m) behind in
      let later =
        until_part-Ends cue timed a.reports b (collect-IsOutcome _ _ (parse_timestamp _)) same in
      elim (Bool-cases (failed a.status)) [
        | inl bad ↦ rw bad (_, refl, s, same)
        | inr good ↦ elim (Bool-cases (separated input)) [
          | inl found ↦ rw (good, found) later
          | inr missing ↦ rw (good, missing) (_, refl, inr (inr refl), same)
        ]
      ]

  -- Reading the line of a cue's times always ends, with success, a bad cue or a parse error, and leaves
  -- the identifier, the text and the header flags of the cue as they were, whatever the line holds
  -- and however the error function answers.
  pub collect_timings_and_settings_total :
      (column : ℕ) (cue : Cue) (input : Bytes)
      → Ends cue (collect_timings_and_settings heed line column cue input)
  unfolding collect_timings_and_settings collect_timestamp
  collect_timings_and_settings_total column cue input =
      from_part-Ends cue (collect_timestamp heed line column (skip_whitespace input).1)
        (collect-IsOutcome column _ (parse_timestamp _))
