-- ===== src/Cue/Apply.antt =====
-- src/libwebvtt/cue.c: `webvtt_cue_validate_set_settings` and `webvtt_cue_set_settings`, the walk over
-- the words of a settings line. Collecting a word does not run out of memory here.
pub mod Total
use webvtt.Base.{
  ℕ, zero, suc, ◌+◌, Bool, true, false, Option, none, some, List, [], ◌∷◌, ◌++◌, Bytes, ltb, ◌==◌,
  if◌then◌else◌, length,
}
use webvtt.Cue.{Cue}
use webvtt.Cue.Setters.{Outcome, set_setting_from_string}
use webvtt.Status.{Status, failed, Error, error_for_status}
use webvtt.Text.{collect_word, skip_whitespace}
use webvtt.Utf8.{utf8_chcount}

-- A call of the parser's error function, which is there. What it returns is not looked at here.
pub record Report : Type 0 where
  pub error : Error
  pub line : ℕ
  pub column : ℕ

-- The variables of the loop; `rest` is the text at `position`.
pub record Walk : Type 0 where
  pub cue : Cue
  pub position : ℕ
  pub rest : Bytes
  pub column : ℕ
  pub reports : List Report

index_of : ℕ → Bytes → Option ℕ
index_of c [] = none
index_of c (d ∷ s) =
    if d == c then some 0 else elim (index_of c s) [ none ↦ none | some i ↦ some (i + 1) ]

-- The offset of the first carriage return; with none, of the first line feed; or the length.
pub line_length : Bytes → ℕ
unfolding index_of
line_length settings = elim (index_of b'\r' settings) [
  | some i ↦ i
  | none ↦ elim (index_of b'\n' settings) [ some i ↦ i | none ↦ length settings ]
]

-- The report for a status, where there is a parser and the status stands for an error.
report : Bool → ℕ → ℕ → Status → List Report
unfolding error_for_status
report false line column s = []
report true line column s =
    if failed s
    then elim (error_for_status s) [
      | none ↦ []
      | some e ↦ record { error = e; line = line; column = column } ∷ []
    ]
    else []

-- One round: a word, the white space behind it, and the setting that the word stands for.
round : Bool → ℕ → Walk → Walk
unfolding report collect_word skip_whitespace set_setting_from_string utf8_chcount
round self line w =
    let (word, behind) = collect_word w.rest in
    let (nwhite, rest) = skip_whitespace behind in
    let (s, cue) = set_setting_from_string w.cue word in
    record {
      cue = cue;
      position = w.position + length word + nwhite;
      rest = rest;
      column = w.column + (utf8_chcount word + nwhite);
      reports = w.reports ++ report self line w.column s;
    }

-- `while( position < length )`, with fuel.
apply_words : ℕ → Bool → ℕ → ℕ → Walk → Option Walk
unfolding round
apply_words zero self line limit w = none
apply_words (suc fuel) self line limit w =
    let next = apply_words fuel self line limit (round self line w) in
    if ltb w.position limit then next else some w

-- The state before the first round: `self` is the parser's line and column, where there is one.
start_column : Option (ℕ × ℕ) → ℕ × ℕ
start_column none = (1, 0)
start_column (some at) = at

abbrev has_parser : Option (ℕ × ℕ) → Bool
has_parser none = false
has_parser (some at) = true

-- The cue, the reports in order, and the column that a parser is left at.
unfoldable pub validate_set_settings : Option (ℕ × ℕ) → Cue → Bytes → Option Walk
unfolding apply_words start_column line_length skip_whitespace
validate_set_settings self cue settings =
    let (line, column) = start_column self in
    let (nwhite, rest) = skip_whitespace settings in
    apply_words (length settings + 1) (has_parser self) line (line_length settings)
      (record { cue = cue; position = nwhite; rest = rest; column = column + nwhite; reports = [] })

abbrev pub set_settings : Cue → Bytes → Option Walk
set_settings = validate_set_settings none
