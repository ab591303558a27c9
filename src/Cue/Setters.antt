-- ===== src/Cue/Setters.antt =====
-- src/libwebvtt/cue.c: the setters of the cue settings. A value is the list of its bytes before the
-- NUL. A setter returns its status and the cue as it leaves it.
pub mod Frame
pub mod Percent
use webvtt.Base.{
  ℕ, ◌+◌, ◌%◌, ◌^◌, Bool, true, false, not, ◌&&◌, ◌||◌, Option, none, some, [], ◌∷◌, Bytes, ltb,
  ◌==◌, if◌then◌else◌, codes, peek, advance, length,
}
use webvtt.Cue.{
  VerticalType, vertical_lr, vertical_rl, AlignType, start, middle, end, left, right, Flags, Cue,
}
use webvtt.Status.{
  Status, success, bad_cuesetting, bad_align, bad_line, bad_position, bad_size, bad_vertical,
  already_align, already_line, already_position, already_size, already_vertical,
}
use webvtt.Text.{isdigit, str_equal, strchr}
use webvtt.Timestamp.{exceeds, parse_int}

abbrev pub Outcome : Type 0
Outcome = Status × Cue

-- `cue->settings.align = i`, and the flag.
assign_align : Cue → AlignType → Outcome
assign_align cue i =
    let settings = record (cue.settings) { align = i } in
    if cue.flags.have_align then (already_align, record cue { settings = settings }) else (
      success,
      record cue { settings = settings; flags = record (cue.flags) { have_align = true } },
    )

align_from : Bytes → Option AlignType
unfolding str_equal
align_from value =
    if str_equal value (codes "start")
    then some start
    else if str_equal value (codes "middle")
    then some middle
    else if str_equal value (codes "end")
    then some end
    else if str_equal value (codes "left")
    then some left
    else if str_equal value (codes "right")
    then some right
    else none

unfoldable pub set_align : Cue → Bytes → Outcome
unfolding assign_align align_from
set_align cue value = elim (align_from value) [
  | none ↦ (bad_align, cue)
  | some i ↦ assign_align cue i
]

assign_vertical : Cue → VerticalType → Outcome
assign_vertical cue i =
    let settings = record (cue.settings) { vertical = i } in
    if cue.flags.have_vertical then (already_vertical, record cue { settings = settings }) else (
      success,
      record cue { settings = settings; flags = record (cue.flags) { have_vertical = true } },
    )

vertical_from : Bytes → Option VerticalType
unfolding str_equal
vertical_from value =
    if str_equal value (codes "lr")
    then some vertical_lr
    else if str_equal value (codes "rl")
    then some vertical_rl
    else none

unfoldable pub set_vertical : Cue → Bytes → Outcome
unfolding assign_vertical vertical_from
set_vertical cue value = elim (vertical_from value) [
  | none ↦ (bad_vertical, cue)
  | some i ↦ assign_vertical cue i
]

-- The first loop of a setter: the count of digits, if every other byte is allowed.
count_digits : (ℕ → Bool) → Bytes → Option ℕ
unfolding isdigit
count_digits other [] = some 0
count_digits other (c ∷ value) = elim (count_digits other value) [
  | none ↦ none
  | some digits ↦ if isdigit c then some (digits + 1) else if other c then some digits else none
]

abbrev is_percent : ℕ → Bool
is_percent c = c == b'%'

abbrev is_sign_or_percent : ℕ → Bool
is_sign_or_percent c = c == b'-' || c == b'%'

-- `c && c[1] != '\0'` for the text at a percent sign.
abbrev has_tail : Option Bytes → Bool
has_tail none = false
has_tail (some c) = not (peek (advance c) == 0)

abbrev is_found : Option Bytes → Bool
is_found none = false
is_found (some c) = true

-- The checks that `position` and `size` share, up to the range test: the number of the value.
percentage : Bytes → Option ℕ
unfolding count_digits strchr parse_int
percentage value = elim (count_digits is_percent value) [
  | none ↦ none
  | some digits ↦
      if digits == 0
      then none
      else if has_tail (strchr value b'%') || not (is_found (strchr value b'%'))
      then none
      else if exceeds (parse_int value).number 100
      then none
      else some (parse_int value).number
]

-- A conversion of a 64-bit integer to 32 bits.
abbrev pub to_32 : ℕ → ℕ
to_32 n = n % 2 ^ 32

assign_position : Cue → ℕ → Outcome
assign_position cue number =
    let settings = record (cue.settings) { position = to_32 number } in
    if cue.flags.have_position then (already_position, record cue { settings = settings }) else (
      success,
      record cue { settings = settings; flags = record (cue.flags) { have_position = true } },
    )

unfoldable pub set_position : Cue → Bytes → Outcome
unfolding percentage assign_position
set_position cue value = elim (percentage value) [
  | none ↦ (bad_position, cue)
  | some number ↦ assign_position cue number
]

assign_size : Cue → ℕ → Outcome
assign_size cue number =
    let settings = record (cue.settings) { size = to_32 number } in
    if cue.flags.have_size then (already_size, record cue { settings = settings }) else (
      success,
      record cue { settings = settings; flags = record (cue.flags) { have_size = true } },
    )

unfoldable pub set_size : Cue → Bytes → Outcome
unfolding percentage assign_size
set_size cue value = elim (percentage value) [
  | none ↦ (bad_size, cue)
  | some number ↦ assign_size cue number
]

-- The checks of `line`: the number, and whether a percent sign stands behind it.
line_from : Bytes → Option (ℕ × Bool)
unfolding count_digits strchr parse_int
line_from value = elim (count_digits is_sign_or_percent value) [
  | none ↦ none
  | some digits ↦
      if digits == 0
      then none
      else if is_found (strchr (advance value) b'-')
      then none
      else if has_tail (strchr value b'%') || (is_found (strchr value b'%') && peek value == b'-')
      then none
      else if peek (parse_int value).rest == b'%'
      then (if exceeds (parse_int value).number 100
          then none
          else some ((parse_int value).number, true))
      else some ((parse_int value).number, false)
]

assign_line : Cue → ℕ × Bool → Outcome
assign_line cue (number, percent) =
    let settings = record (cue.settings) { line = to_32 number } in
    if cue.flags.have_line
    then (already_line, record cue { settings = settings; snap_to_lines = not percent })
    else (
      success,
      record cue {
        settings = settings;
        snap_to_lines = not percent;
        flags = record (cue.flags) { have_line = true };
      },
    )

unfoldable pub set_line : Cue → Bytes → Outcome
unfolding line_from assign_line
set_line cue value = elim (line_from value) [
  | none ↦ (bad_line, cue)
  | some line ↦ assign_line cue line
]

-- The table of keywords.
unfoldable pub set_setting : Cue → Bytes → Bytes → Outcome
unfolding str_equal
set_setting cue key value =
    if str_equal key (codes "align")
    then set_align cue value
    else if str_equal key (codes "line")
    then set_line cue value
    else if str_equal key (codes "position")
    then set_position cue value
    else if str_equal key (codes "size")
    then set_size cue value
    else if str_equal key (codes "vertical")
    then set_vertical cue value
    else (bad_cuesetting, cue)

-- The text before the first colon, and the text behind it.
split_colon : Bytes → Option (Bytes × Bytes)
split_colon [] = none
split_colon (c ∷ word) =
    if c == b':'
    then some ([], word)
    else elim (split_colon word) [ none ↦ none | some (key, value) ↦ some (c ∷ key, value) ]

-- `key:value`, with both parts there and room for the key in `keyword[32]`.
unfoldable pub set_setting_from_string : Cue → Bytes → Outcome
unfolding split_colon set_setting
set_setting_from_string cue word = elim (split_colon word) [
  | none ↦ (bad_cuesetting, cue)
  | some (keyword, value) ↦
      if length keyword == 0 || peek value == 0 || ltb 31 (length keyword)
      then (bad_cuesetting, cue)
      else set_setting cue keyword value
]
