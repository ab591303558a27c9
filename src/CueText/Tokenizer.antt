-- ===== src/CueText/Tokenizer.antt =====
-- src/libwebvtt/cuetext.c: `webvtt_cuetext_tokenizer` and the routines for its states. A text is
-- the list of its bytes before the NUL; `*position` is the text that is left. Strings are values,
-- and no operation on them runs out of memory here.
use webvtt.Base.{
  ℕ, zero, suc, ◌+◌, Bool, true, false, not, ◌&&◌, ◌||◌, Option, none, some, List, [], ◌∷◌, ◌++◌,
  Bytes, codes, ◌==◌, if◌then◌else◌, peek, advance, length,
}
use webvtt.Status.{Status, success, unfinished}
pub mod Consume
pub mod Escape
pub mod ClassTag
use webvtt.Text.{isdigit, isalphanum, isspace, str_equal}
use webvtt.Timestamp.{parse_timestamp}

pub data TokenState : Type 0 where
  in_data escape tag start_tag start_tag_class start_tag_annotation end_tag time_stamp_tag :
      TokenState

-- `webvtt_cuetext_token`.
pub data Token : Type 0 where
  start_token : Bytes → List Bytes → Bytes → Token
  end_token : Bytes → Token
  time_stamp_token : ℕ → Token
  text_token : Bytes → Token

-- What a routine returns and leaves behind: the status, `*token_state`, `*position` and the string.
pub record Progress : Type 0 where
  pub status : Status
  pub state : TokenState
  pub position : Bytes
  pub result : Bytes

abbrev stay : TokenState → Bytes → Bytes → Progress
stay state position result = record {
  status = success;
  state = state;
  position = position;
  result = result;
}

abbrev go : TokenState → Bytes → Bytes → Progress
go state position result = record {
  status = unfinished;
  state = state;
  position = position;
  result = result;
}

data_state : Bytes → Bytes → Progress
data_state [] result = stay in_data [] result
data_state (c ∷ p) result =
    let more = data_state p (result ++ c ∷ []) in
    if c == b'&'
    then go escape p result
    else if c == b'<'
    then (if length result == 0 then go tag p result else stay in_data (c ∷ p) result)
    else more

abbrev rlm_replace : Bytes
rlm_replace = 0xE2 ∷ 0x80 ∷ 0x8F ∷ []

abbrev lrm_replace : Bytes
lrm_replace = 0xE2 ∷ 0x80 ∷ 0x8E ∷ []

abbrev nbsp_replace : Bytes
nbsp_replace = 0xC2 ∷ 0xA0 ∷ []

-- What a semicolon behind `buffer` adds to the result.
unescape : Bytes → Bytes
unfolding str_equal
unescape buffer =
    if str_equal buffer (codes "&amp")
    then b'&' ∷ []
    else if str_equal buffer (codes "&lt")
    then b'<' ∷ []
    else if str_equal buffer (codes "&gt")
    then b'>' ∷ []
    else if str_equal buffer (codes "&rlm")
    then rlm_replace
    else if str_equal buffer (codes "&lrm")
    then lrm_replace
    else if str_equal buffer (codes "&nbsp")
    then nbsp_replace
    else buffer ++ b';' ∷ []

-- The loop of the escape state, with its `buffer`.
escape_loop : Bytes → Bytes → Bytes → Progress
unfolding unescape isalphanum
escape_loop [] buffer result = stay escape [] (result ++ buffer)
escape_loop (c ∷ p) buffer result =
    let again = escape_loop p (b'&' ∷ []) (result ++ buffer) in
    let more = escape_loop p (buffer ++ c ∷ []) result in
    if c == b'<'
    then stay escape (c ∷ p) (result ++ buffer)
    else if c == b'&'
    then again
    else if c == b';'
    then go in_data p (result ++ unescape buffer)
    else if isalphanum c
    then more
    else go in_data p (result ++ (buffer ++ c ∷ []))

escape_state : Bytes → Bytes → Progress
unfolding escape_loop
escape_state position result = escape_loop position (b'&' ∷ []) result

tag_state : Bytes → Bytes → Progress
unfolding isspace isdigit
tag_state [] result = stay tag [] result
tag_state (c ∷ p) result =
    if isspace c
    then go start_tag_annotation p result
    else if isdigit c
    then go time_stamp_tag p (result ++ c ∷ [])
    else if c == b'.'
    then go start_tag_class p result
    else if c == b'/'
    then go end_tag p result
    else if c == b'>'
    then stay tag (c ∷ p) result
    else go start_tag p (result ++ c ∷ [])

start_tag_state : Bytes → Bytes → Progress
unfolding isspace
start_tag_state [] result = stay start_tag [] result
start_tag_state (c ∷ p) result =
    let more = start_tag_state p (result ++ c ∷ []) in
    if isspace c
    then go start_tag_annotation p result
    else if c == b'.'
    then go start_tag_class p result
    else if c == b'>'
    then stay start_tag (c ∷ p) result
    else more

-- The loop of the class state leaves a list of strings, and always ends the token.
pub record ClassProgress : Type 0 where
  pub state : TokenState
  pub position : Bytes
  pub css_classes : List Bytes

class_loop : Bytes → Bytes → List Bytes → ClassProgress
unfolding isspace
class_loop [] buffer css_classes = record {
  state = start_tag_class;
  position = [];
  css_classes = css_classes ++ buffer ∷ [];
}
class_loop (c ∷ p) buffer css_classes =
    let next = class_loop p [] (css_classes ++ buffer ∷ []) in
    let more = class_loop p (buffer ++ c ∷ []) css_classes in
    if isspace c
    then record {
      state = start_tag_annotation;
      position = c ∷ p;
      css_classes = if length buffer == 0 then css_classes else css_classes ++ buffer ∷ [];
    }
    else if c == b'>'
    then record {
      state = start_tag_class;
      position = c ∷ p;
      css_classes = css_classes ++ buffer ∷ [];
    }
    else if c == b'.'
    then next
    else more

class_state : Bytes → List Bytes → ClassProgress
unfolding class_loop
class_state position css_classes = class_loop position [] css_classes

-- The bytes up to a `>` or the end: the loop that three states share.
read_to_gt : Bytes → Bytes → Bytes × Bytes
read_to_gt [] result = ([], result)
read_to_gt (c ∷ p) result =
    let more = read_to_gt p (result ++ c ∷ []) in if c == b'>' then (c ∷ p, result) else more

annotation_state : Bytes → Bytes → Progress
unfolding read_to_gt
annotation_state position annotation =
    let (p, annotation') = read_to_gt position annotation in stay start_tag_annotation p annotation'

end_tag_state : Bytes → Bytes → Progress
unfolding read_to_gt
end_tag_state position result =
    let (p, result') = read_to_gt position result in stay end_tag p result'

timestamp_state : Bytes → Bytes → Progress
unfolding read_to_gt
timestamp_state position result =
    let (p, result') = read_to_gt position result in stay time_stamp_tag p result'

-- The variables of `webvtt_cuetext_tokenizer`.
pub record Scan : Type 0 where
  pub status : Status
  pub state : TokenState
  pub position : Bytes
  pub result : Bytes
  pub annotation : Bytes
  pub css_classes : List Bytes

abbrev with_result : Scan → Progress → Scan
with_result t p = record t {
  status = p.status;
  state = p.state;
  position = p.position;
  result = p.result;
}

-- One round of the loop: the routine of the state.
dispatch : TokenState → Scan → Scan
unfolding data_state escape_state tag_state start_tag_state class_state annotation_state
    end_tag_state timestamp_state
dispatch in_data t = with_result t (data_state t.position t.result)
dispatch escape t = with_result t (escape_state t.position t.result)
dispatch tag t = with_result t (tag_state t.position t.result)
dispatch start_tag t = with_result t (start_tag_state t.position t.result)
dispatch start_tag_class t =
    let p = class_state t.position t.css_classes in
    record t {
      status = success;
      state = p.state;
      position = p.position;
      css_classes = p.css_classes;
    }
dispatch start_tag_annotation t =
    let p = annotation_state t.position t.annotation in
    record t { status = p.status; state = p.state; position = p.position; annotation = p.result }
dispatch end_tag t = with_result t (end_tag_state t.position t.result)
dispatch time_stamp_tag t = with_result t (timestamp_state t.position t.result)

abbrev pub is_unfinished : Status → Bool
is_unfinished unfinished = true
is_unfinished _ = false

-- `while( status == WEBVTT_UNFINISHED )`, with fuel.
scan_loop : ℕ → Scan → Option Scan
unfolding dispatch
scan_loop zero t = none
scan_loop (suc fuel) t =
    let next = scan_loop fuel (dispatch t.state t) in
    if is_unfinished t.status then next else some t

-- `if( **position == '>' ) (*position)++`.
skip_gt : Bytes → Bytes
skip_gt position = if peek position == b'>' then advance position else position

tag_accepts_annotation : Bytes → Bool
unfolding str_equal
tag_accepts_annotation tag_name =
    str_equal tag_name (codes "v") || str_equal tag_name (codes "lang")

start_of : Scan → Token
unfolding tag_accepts_annotation
start_of t =
    start_token t.result t.css_classes
      (if tag_accepts_annotation t.result then t.annotation else [])

-- The state that the loop ends in tells the kind of the token.
make_token : TokenState → Scan → Token
unfolding start_of
make_token in_data t = text_token t.result
make_token escape t = text_token t.result
make_token end_tag t = end_token t.result
make_token time_stamp_tag t = time_stamp_token (parse_timestamp t.result).time
make_token _ t = start_of t

abbrev scan_start : Bytes → Scan
scan_start position = record {
  status = unfinished;
  state = in_data;
  position = position;
  result = [];
  annotation = [];
  css_classes = [];
}

abbrev token_at : Option Scan → Option (Token × Bytes)
token_at none = none
token_at (some t) = some (make_token t.state t, skip_gt t.position)

-- The token in front of the text, and the text behind it; `none` if the fuel has run out.
unfoldable pub tokenizer : Bytes → Option (Token × Bytes)
unfolding scan_loop make_token skip_gt
tokenizer position = token_at (scan_loop (length position + 2) (scan_start position))
