-- ===== src/Status.antt =====
-- include/webvtt/util.h and include/webvtt/error.h: the status codes and the error codes, and
-- src/libwebvtt/error.c: `webvtt_error_for_status` and `webvtt_strerror`.
use Prim.Native.String.{String}
use webvtt.Base.{
  ℕ, ◌<◌, Option, none, some, Bool, true, false, List, [], ◌∷◌, arith, get_elem?, length,
}

-- `webvtt_status_t`, without the markers that stand between the groups of codes.
pub data Status : Type 0 where
  success unfinished parse_error out_of_memory invalid_param not_supported unsuccessful : Status
  invalid_tag_name invalid_token_type invalid_token_state fail skip_cue next_cuesetting : Status
  no_match_found failed_assertion bad_cue bad_cuesetting : Status
  bad_align bad_line bad_position bad_size bad_vertical : Status
  already_align already_line already_position already_size already_vertical : Status

-- `WEBVTT_FAILED`.
abbrev pub failed : Status → Bool
failed success = false
failed _ = true

-- `webvtt_error_t`.
pub data Error : Type 0 where
  allocation_failed malformed_tag expected_eol expected_whitespace unexpected_whitespace : Error
  long_comment id_truncated malformed_timestamp expected_timestamp missing_cuetime_separator : Error
  expected_cuetime_separator missing_cuesetting_delimiter invalid_cuesetting_delimiter : Error
  invalid_endtime invalid_cuesetting unfinished_cuetimes missing_cuesetting_keyword : Error
  vertical_already_set vertical_bad_value line_already_set line_bad_value : Error
  position_already_set position_bad_value size_already_set size_bad_value : Error
  align_already_set align_bad_value cue_contains_separator cue_incomplete : Error

-- The error that a status stands for, where it stands for one.
unfoldable pub error_for_status : Status → Option Error
error_for_status out_of_memory = some allocation_failed
error_for_status bad_align = some align_bad_value
error_for_status bad_line = some line_bad_value
error_for_status bad_size = some size_bad_value
error_for_status bad_position = some position_bad_value
error_for_status bad_vertical = some vertical_bad_value
error_for_status already_align = some align_already_set
error_for_status already_line = some line_already_set
error_for_status already_size = some size_already_set
error_for_status already_position = some position_already_set
error_for_status already_vertical = some vertical_already_set
error_for_status bad_cuesetting = some invalid_cuesetting
error_for_status _ = none

-- The table of messages, `errstr`.
abbrev errstr : List String
errstr =
    "error allocating object" ∷ "malformed 'WEBVTT' tag" ∷ "expected newline"
    ∷ "expected whitespace" ∷ "unexpected whitespace" ∷ "very long tag-comment"
    ∷ "webvtt-cue-id truncated" ∷ "malformed webvtt-timestamp" ∷ "expected webvtt-timestamp"
    ∷ "missing webvtt-cuetime-separator `-->'" ∷ "expected webvtt-cuetime-separator `-->'"
    ∷ "missing whitespace before webvtt-cuesetting"
    ∷ "invalid webvtt-cuesetting key:value delimiter. expected `:'"
    ∷ "webvtt-cue end-time must have value greater than start-time"
    ∷ "unrecognized webvtt-cue-setting"
    ∷ "unfinished webvtt cuetimes. expected 'start-timestamp --> end-timestamp'"
    ∷ "missing setting keyword for value" ∷ "'vertical' cue-setting already used"
    ∷ "'vertical' setting must have a value of either 'lr' or 'rl'"
    ∷ "'line' cue-setting already used"
    ∷ "'line' cue-setting must have a value that is an integer (signed) line number, or percentage (%) from top of video display"
    ∷ "'position' cue-setting already used"
    ∷ "'position' cue-setting must be a percentage (%) value representing the position in the direction orthogonal to the 'line' setting"
    ∷ "'size' cue-setting already used" ∷ "'size' cue-setting must have percentage (%) value"
    ∷ "'align' cue-setting already used"
    ∷ "'align' cue-setting must have a value of either 'start', 'middle', or 'end'"
    ∷ "cue-text line contains unescaped timestamp separator '-->'"
    ∷ "cue contains cue-id, but is missing cuetimes or cue text" ∷ []

-- The value of an error in `webvtt_error_t`.
unfoldable pub error_code : Error → ℕ
error_code allocation_failed = 0
error_code malformed_tag = 1
error_code expected_eol = 2
error_code expected_whitespace = 3
error_code unexpected_whitespace = 4
error_code long_comment = 5
error_code id_truncated = 6
error_code malformed_timestamp = 7
error_code expected_timestamp = 8
error_code missing_cuetime_separator = 9
error_code expected_cuetime_separator = 10
error_code missing_cuesetting_delimiter = 11
error_code invalid_cuesetting_delimiter = 12
error_code invalid_endtime = 13
error_code invalid_cuesetting = 14
error_code unfinished_cuetimes = 15
error_code missing_cuesetting_keyword = 16
error_code vertical_already_set = 17
error_code vertical_bad_value = 18
error_code line_already_set = 19
error_code line_bad_value = 20
error_code position_already_set = 21
error_code position_bad_value = 22
error_code size_already_set = 23
error_code size_bad_value = 24
error_code align_already_set = 25
error_code align_bad_value = 26
error_code cue_contains_separator = 27
error_code cue_incomplete = 28

abbrev message_or_empty : Option String → String
message_or_empty none = ""
message_or_empty (some message) = message

-- `webvtt_strerror`, on any number; behind the table it is the empty text.
unfoldable pub strerror : ℕ → String
strerror err = message_or_empty (get_elem? errstr err)

-- Each error has a place in the table.
pub error_code-lt-errstr : (e : Error) → error_code e < length errstr
unfolding error_code
error_code-lt-errstr e = grind arith
