-- ===== src/Parser/Webvtt.antt =====
-- src/libwebvtt/parser.c: `parse_webvtt`, the loop over the tokens of a file. The switch on the state
-- is in the child.
mod States
unfoldable pub use States.*
use webvtt.Base.{
  ℕ, zero, suc, ◌+◌, ◌*◌, Bool, true, false, not, ◌&&◌, ◌||◌, Option, none, some, [], ◌∷◌, Bytes,
  ltb, ◌==◌, if◌then◌else◌, length,
}
use webvtt.Cue.{create_cue}
use webvtt.Lexer.{
  LexToken, bad_token, unfinished_token, webvtt_tag, newline, whitespace, is_unfinished, Lexed, lex,
  lex_newline,
}
use webvtt.Parser.{
  Host, header, Mode, m_webvtt, Parser, Run, done, fault, too_long, out_of_fuel, ◌>>=◌, or_fault,
  or_too_long,
}
use webvtt.Parser.CueLine.{reported, heard, push0, proc_cueline}
use webvtt.Parser.Stack.{
  ParseState, t_initial, t_tag, t_tagcomment, t_eol, t_body, t_cueread, t_cue, t_cueid, t_from,
  v_none, v_integer, v_cue, v_text, Value, null, cue_value, text_value, number, top_frame,
  frame_below, frame_up, set_top, set_up, do_pop, pop,
}
use webvtt.Status.{Status, success, parse_error, failed_assertion, malformed_tag, expected_eol}
use webvtt.StringData.{StringData, init_string, append, Line, getline}
use webvtt.StringData.Replace.{string_replace_all}
use webvtt.StringData.Replace.Nul.{nul, replacement}

-- What reading a line of a cue leads to: its end is taken, or there is a token to be read.
pub data Read : Type 0 where
  line_done : Status → Parser → Bytes → Read
  go_on : Status → Parser → Bytes → Read

unfoldable pub newline_read : Status → Parser → Lexed × Bool → Run Read
unfolding is_newline
newline_read status p (r, true) = fault
newline_read status p (r, false) =
    if is_newline r.token
    then done (line_done status (popped_one (with_lexed p r)) r.rest)
    else done (go_on status (with_lexed p r) r.rest)

-- The end of the line; `flags` tells that the line is complete. `webvtt_lex_newline` steps back a byte
-- only at the end of a buffer, where it is not called.
unfoldable pub line_end : Status → Parser → Bytes → Run Read
unfolding newline_read lex_newline
line_end status p rest = do
  r ← or_fault (lex_newline p.finished rest p.lexer)
  newline_read status p r

unfoldable pub line_text : Host → Line → Run StringData
unfolding string_replace_all
line_text h l =
    if l.ended
    then or_too_long (header h + (3 * length l.str.text + 3))
        (string_replace_all (header h) l.str nul replacement)
    else done l.str

unfoldable pub read_line : Host → Bool → Status → Parser → StringData → Bytes → Run Read
unfolding line_end line_text getline
read_line h finish status p text rest = do
  l ←
      or_too_long (header h + (length text.text + (length rest + 1)))
        (getline (header h) text rest none finish)
  str ← line_text h l
  let q = record p {
    stack =
        set_top p.stack
          (record (top_frame p.stack) { v = text_value str; flags = if l.ended then 1 else 0 });
  }
  if l.ended then line_end success q l.rest else done (go_on status q l.rest)

unfoldable pub cue_read : Host → Bool → Status → Parser → Value → Bytes → Run Read
unfolding read_line
cue_read h finish status p (text_value text) rest =
    if (top_frame p.stack).flags == 0
    then read_line h finish status p text rest
    else line_end status p rest
cue_read h finish status p _ rest = fault

-- A token that waits for more is none in the last chunk.
unfoldable pub token_of : Bool → LexToken → LexToken
token_of finish token = if is_unfinished token && finish then bad_token else token

unfoldable pub token_read : Host → Bool → ℕ → ℕ → Status → Parser → Lexed → Run Next
unfolding on_state token_of
token_read h finish line column status p r =
    if is_unfinished r.token && not finish && length r.rest == 0
    then done (leave status (with_lexed p r) r.rest)
    else on_state 2 h (top_frame p.stack).state (token_of finish r.token) line column status
        (with_lexed p r) r.rest

-- A token, and the switch. With a line in the frame above the cue there is no token to be read.
unfoldable pub tokenize : Host → Bool → ℕ → ℕ → Status → Parser → Bytes → Run Next
unfolding token_read is_cue is_cueread lex
tokenize h finish line column status p rest =
    if is_cue (top_frame p.stack).state && (p.popped && is_cueread (frame_up p.stack).state)
    then on_cue h status p rest
    else (do r ← or_fault (lex finish rest p.lexer); token_read h finish line column status p r)

unfoldable pub after_read : Host → Bool → ℕ → ℕ → Read → Run Next
unfolding tokenize
after_read h finish line column (line_done status p rest) = done (again status p rest)
after_read h finish line column (go_on status p rest) = tokenize h finish line column status p rest

-- One round of the loop.
unfoldable pub webvtt_round : Host → Bool → Status → Parser → Bytes → Run Next
unfolding cue_read after_read
webvtt_round h finish status p rest =
    let line = p.lexer.line in
    let column = p.lexer.column in
    if is_cueread (top_frame p.stack).state
    then (do
      r ← cue_read h finish status p (top_frame p.stack).v rest
      after_read h finish line column r)
    else tokenize h finish line column status p rest

abbrev pub Exit : Type 0
Exit = Status × Parser × Bytes

-- What a round leads to; `more` is the rest of the loop.
abbrev pub next_exit : (Status → Parser → Bytes → Run Exit) → Run Next → Run Exit
next_exit more (done (again status p rest)) = more status p rest
next_exit more (done (leave status p rest)) = done (status, p, rest)
next_exit more fault = fault
next_exit more too_long = too_long
next_exit more out_of_fuel = out_of_fuel

-- `while( pos < len )`, with fuel.
unfoldable pub webvtt_loop : ℕ → Host → Bool → Status → Parser → Bytes → Run Exit
unfolding webvtt_round
webvtt_loop zero h finish status p rest = out_of_fuel
webvtt_loop (suc fuel) h finish status p [] = done (status, p, [])
webvtt_loop (suc fuel) h finish status p (c ∷ rest) =
    next_exit (webvtt_loop fuel h finish) (webvtt_round h finish status p (c ∷ rest))

unfoldable pub parse_webvtt : Host → Bool → Parser → Bytes → Run Exit
unfolding webvtt_loop
parse_webvtt h finish p rest = webvtt_loop (6 * length rest + 6) h finish success p rest
