-- ===== src/Parser/Webvtt/States.antt =====
-- src/libwebvtt/parser.c: the switch on the state in `parse_webvtt`.
use webvtt.Base.{
  ℕ, zero, suc, ◌+◌, Bool, true, false, not, ◌&&◌, ◌||◌, Option, none, some, [], ◌∷◌, Bytes, ltb,
  ◌==◌, if◌then◌else◌, length,
}
use webvtt.Cue.{create_cue}
use webvtt.Lexer.{LexToken, unfinished_token, webvtt_tag, newline, whitespace, Lexed}
use webvtt.Parser.{
  Host, header, Mode, m_webvtt, Parser, Run, done, fault, out_of_fuel, ◌>>=◌, or_fault, or_too_long,
}
use webvtt.Parser.CueLine.{reported, heard, push0, proc_cueline}
use webvtt.Parser.Stack.{
  ParseState, t_initial, t_tag, t_tagcomment, t_eol, t_body, t_cueread, t_cue, t_cueid, t_from,
  v_none, v_integer, v_cue, v_text, Value, null, cue_value, text_value, number, top_frame,
  frame_below, frame_up, set_top, set_up, do_pop, pop,
}
use webvtt.Status.{Status, success, parse_error, failed_assertion, malformed_tag, expected_eol}
use webvtt.StringData.{init_string, append}

-- What a round of the loop leads to: the next round, or the end of the routine, each with the status,
-- the parser, and the text from `pos` on.
pub data Next : Type 0 where
  again : Status → Parser → Bytes → Next
  leave : Status → Parser → Bytes → Next

abbrev pub with_lexed : Parser → Lexed → Parser
with_lexed p r = record p { lexer = r.lexer }

-- `self->token_pos = 0`.
abbrev pub reset_token : Parser → Parser
reset_token p = record p { lexer = record (p.lexer) { token = [] } }

-- `break` out of the switch.
abbrev pub next_round : Status → Bytes → Parser → Next
next_round status rest p = again status (reset_token p) rest

abbrev pub popped_back : Parser → Parser
popped_back p = record p { stack = do_pop p.stack; popped = true }

abbrev pub popped_one : Parser → Parser
popped_one p = record p { stack = pop p.stack; popped = true }

unfoldable pub is_cueread : ParseState → Bool
is_cueread t_cueread = true
is_cueread _ = false

unfoldable pub is_cue : ParseState → Bool
is_cue t_cue = true
is_cue _ = false

unfoldable pub is_eol : ParseState → Bool
is_eol t_eol = true
is_eol _ = false

unfoldable pub is_newline : LexToken → Bool
is_newline newline = true
is_newline _ = false

unfoldable pub is_webvtt : Mode → Bool
is_webvtt m_webvtt = true
is_webvtt _ = false

-- `last_line` and `last_column` are those before the token, here and in what follows.
unfoldable pub on_initial : LexToken → ℕ → ℕ → Status → Parser → Bytes → Run Next
unfolding push0
on_initial webvtt_tag line column status p rest = do
  q ← push0 webvtt_tag t_tag null v_none line column p
  done (next_round status rest q)
on_initial unfinished_token line column status p rest = done (next_round status rest p)
on_initial token line column status p rest =
    done (leave parse_error (reported malformed_tag 1 1 p) rest)

unfoldable pub on_tag : LexToken → ℕ → ℕ → Status → Parser → Bytes → Run Next
unfolding push0
on_tag whitespace line column status p rest = do
  q ← push0 whitespace t_tagcomment null v_none line column p
  done (next_round status rest q)
on_tag newline line column status p rest = do
  let s = do_pop p.stack
  let b = set_top s (record (top_frame s) { state = t_body })
  q ← push0 newline t_eol (number 1) v_integer line column (record p { stack = b })
  done (next_round status rest q)
on_tag token line column status p rest =
    done
      (leave parse_error (reported malformed_tag p.lexer.line (frame_below p.stack).column p) rest)

unfoldable pub find_newline : Bytes → Bytes
find_newline [] = []
find_newline (c ∷ s) = if c == b'\r' || c == b'\n' then c ∷ s else find_newline s

unfoldable pub on_tagcomment : LexToken → ℕ → ℕ → Status → Parser → Bytes → Run Next
unfolding push0 find_newline
on_tagcomment newline line column status p rest = do
  q ← push0 newline t_eol (number 1) v_integer line column (popped_back p)
  done (next_round status rest q)
on_tagcomment token line column status p rest = done (again status p (find_newline rest))

-- `v.value++`, where the frame has a number.
unfoldable pub increment : Value → Option Value
increment null = some (number 1)
increment (number n) = some (number (n + 1))
increment _ = none

unfoldable pub count_newline : Status → Parser → Bytes → Run Next
unfolding increment
count_newline status p rest = do
  v ← or_fault (increment (top_frame p.stack).v)
  done (
      next_round status rest
        (record p { stack = set_top p.stack (record (top_frame p.stack) { v = v }) }))

-- `v.value < 2`, where the frame has a number.
unfoldable pub few_newlines : Value → Option Bool
few_newlines null = some true
few_newlines (number n) = some (ltb n 2)
few_newlines _ = none

-- Two frames: the cue, and its first line, which begins with the bytes of the token.
unfoldable pub begin_cue : Host → LexToken → ℕ → ℕ → Status → Parser → Bytes → Run Next
unfolding push0 append
begin_cue h token line column status p rest = do
  tk ← or_too_long (header h + length p.lexer.token) (append (header h) init_string p.lexer.token)
  q ← push0 token t_cue (cue_value create_cue) v_cue line column p
  r ← push0 token t_cueread null v_text line column q
  done (
      next_round success rest
        (record r { stack = set_top r.stack (record (top_frame r.stack) { v = text_value tk }) }))

unfoldable pub body_token : Host → LexToken → ℕ → ℕ → Status → Parser → Bytes → Run Next
unfolding begin_cue
body_token h newline line column status p rest = done (next_round status rest p)
body_token h token line column status p rest = begin_cue h token line column status p rest

-- Behind the line ends that follow the header.
unfoldable pub after_eol : Host → LexToken → ℕ → ℕ → Status → Parser → Bytes → Bool → Run Next
unfolding body_token
after_eol h token line column status p rest few =
    let q = if few then reported expected_eol p.lexer.line 1 p else p in
    let up = record (frame_up q.stack) { state = t_initial; v = null } in
    if few && not (heard h expected_eol p.lexer.line 1)
    then done (leave parse_error q rest)
    else body_token h token line column status (record q { stack = set_up q.stack up }) rest

unfoldable pub on_body : Host → LexToken → ℕ → ℕ → Status → Parser → Bytes → Run Next
unfolding after_eol few_newlines is_eol
on_body h token line column status p rest =
    if p.popped && is_eol (frame_up p.stack).state
    then (do
      few ← or_fault (few_newlines (frame_up p.stack).v)
      after_eol h token line column status p rest few)
    else body_token h token line column status p rest

-- Behind `webvtt_proc_cueline`.
unfoldable pub line_read : Bytes → Status × Parser → Next
unfolding is_webvtt
line_read rest (status, p) =
    let q = record p { lexer = record (p.lexer) { line = p.lexer.line + 1 } } in
    if is_webvtt q.mode
    then next_round status rest (record q { popped = false })
    else leave status q rest

-- Without a cue the source reports a status in place of an error, which is left out. A line that is no
-- string does not occur.
unfoldable pub cue_line : Host → Parser → Bytes → Value → Value → Run Next
unfolding proc_cueline line_read
cue_line h p rest (cue_value cue) (text_value text) = do
  r ← proc_cueline h p cue text.text
  done (line_read rest r)
cue_line h p rest null v = done (leave parse_error p rest)
cue_line h p rest _ _ = fault

-- The line is in the frame above, which gives it away.
unfoldable pub on_cue : Host → Status → Parser → Bytes → Run Next
unfolding cue_line is_cueread
on_cue h status p rest =
    let up = frame_up p.stack in
    let q = record p { stack = set_up p.stack (record up { type = v_none; v = null }) } in
    if p.popped && is_cueread up.state
    then cue_line h q rest (top_frame p.stack).v up.v
    else done (leave failed_assertion p rest)

-- The switch on the state, from `_recheck` on; each return to it takes fuel.
unfoldable pub on_state :
    ℕ → Host → ParseState → LexToken → ℕ → ℕ → Status → Parser → Bytes → Run Next
unfolding on_initial on_tag on_tagcomment count_newline on_body on_cue
on_state zero h state token line column status p rest = out_of_fuel
on_state (suc fuel) h t_initial token line column status p rest =
    on_initial token line column status p rest
on_state (suc fuel) h t_tag token line column status p rest = on_tag token line column status p rest
on_state (suc fuel) h t_tagcomment token line column status p rest =
    on_tagcomment token line column status p rest
on_state (suc fuel) h t_body token line column status p rest =
    on_body h token line column status p rest
on_state (suc fuel) h t_cue token line column status p rest = on_cue h status p rest
on_state (suc fuel) h t_eol newline line column status p rest = count_newline status p rest
on_state (suc fuel) h t_eol token line column status p rest =
    on_state fuel h (top_frame (do_pop p.stack)).state token line column status (popped_back p) rest
on_state (suc fuel) h t_cueid newline line column status p rest =
    count_newline status
      (record p { stack = set_top p.stack (record (top_frame p.stack) { state = t_from }) }) rest
on_state (suc fuel) h t_cueid token line column status p rest =
    on_state fuel h (top_frame (do_pop p.stack)).state token line column status (popped_back p) rest
on_state (suc fuel) h _ token line column status p rest = done (next_round status rest p)
