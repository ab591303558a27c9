-- ===== src/Parser/Chunk.antt =====
-- src/libwebvtt/parser.c: `webvtt_parse_chunk`, which is given the file piece by piece,
-- `webvtt_finish_parsing`, and `cleanup_stack`.
use webvtt.Base.{
  ℕ, zero, suc, ◌+◌, ◌*◌, Bool, true, false, not, ◌&&◌, [], ◌∷◌, Bytes, leb, ◌==◌, if◌then◌else◌,
  length,
}
use webvtt.Cue.{create_cue, cue_is_incomplete}
use webvtt.Lexer.{bom}
use webvtt.Parser.{
  Host, Mode, m_webvtt, m_cuetext, m_skip_cue, Parser, Run, done, fault, too_long, out_of_fuel,
  ◌>>=◌,
}
use webvtt.Parser.CueLine.{reported, heard, set_column, proc_cueline}
use webvtt.Parser.Payload.{is_no_value, proc_cuetext}
use webvtt.Parser.Stack.{
  t_initial, v_none, v_cue, Value, null, cue_value, text_value, Frame, blank, StateStack, top_frame,
  frame_up, set_top, set_up, pop,
}
use webvtt.Parser.Webvtt.{is_cueread, is_cue, Exit, parse_webvtt}
use webvtt.Status.{
  Status, success, unfinished, failed_assertion, parse_error, failed, cue_incomplete,
}

-- One round of the loop: the routine that the mode asks for.
unfoldable pub chunk_round : Host → Mode → Parser → Bytes → Run Exit
unfolding parse_webvtt proc_cuetext
chunk_round h m_webvtt p rest = parse_webvtt h p.finished p rest
chunk_round h m_cuetext p rest = proc_cuetext h p.finished p rest
chunk_round h m_skip_cue p rest = proc_cuetext h p.finished p rest

abbrev pub is_cuetext : Mode → Bool
is_cuetext m_cuetext = true
is_cuetext _ = false

abbrev pub is_unfinished_status : Status → Bool
is_unfinished_status unfinished = true
is_unfinished_status _ = false

-- The status that ends the routine: text that is not finished is a failure only while a cue is skipped.
abbrev pub chunk_status : Mode → Status → Status
chunk_status mode status =
    if is_cuetext mode && is_unfinished_status status then success else status

-- What a round leads to; `more` is the rest of the loop.
abbrev pub chunk_on :
    (Parser → Bytes → Run (Status × Parser)) → Mode → Exit → Bool → Run (Status × Parser)
chunk_on more mode e true = done (chunk_status mode e.0, e.1)
chunk_on more mode e false = more e.1 e.2

abbrev pub chunk_next :
    (Parser → Bytes → Run (Status × Parser)) → Mode → Run Exit → Run (Status × Parser)
chunk_next more mode (done e) = chunk_on more mode e (failed e.0)
chunk_next more mode fault = fault
chunk_next more mode too_long = too_long
chunk_next more mode out_of_fuel = out_of_fuel

-- `while( pos < len )`, with fuel.
unfoldable pub chunk_loop : ℕ → Host → Parser → Bytes → Run (Status × Parser)
unfolding chunk_round
chunk_loop zero h p rest = out_of_fuel
chunk_loop (suc fuel) h p [] = done (success, p)
chunk_loop (suc fuel) h p (c ∷ rest) =
    chunk_next (chunk_loop fuel h) p.mode (chunk_round h p.mode p (c ∷ rest))

unfoldable pub parse_chunk : Host → Parser → Bytes → Run (Status × Parser)
unfolding chunk_loop
parse_chunk h p buffer = chunk_loop (2 * length buffer + 2) h p buffer

-- A frame that holds nothing any more.
cleared : Frame → Frame
cleared f = record f { type = v_none; line = 0; column = 0; token = bom; v = null }

-- The frames up to the top one are cleared; an array that has grown gives way to the first one, which
-- is blank.
unfoldable pub cleanup_stack : Parser → Parser
unfolding cleared
cleanup_stack p =
    let s = p.stack in
    let swept = record s {
      frames = λ i. if leb i s.top then cleared (s.frames i) else s.frames i;
      top = 0;
    } in
    let first : StateStack = record {
      frames = λ i. blank;
      top = 0;
      stack_alloc = 0x100;
      capacity = 0x100;
    } in
    record p { stack = if s.capacity == s.stack_alloc then swept else first }

-- The text of a cue that the file ends in.
finish_text : Host → Parser → Run (Status × Parser)
unfolding proc_cuetext
finish_text h p = do e ← proc_cuetext h p.finished p []; done (e.0, cleanup_stack e.1)

finish_mode : Host → Mode → Status → Parser → Run (Status × Parser)
unfolding finish_text cleanup_stack
finish_mode h m_cuetext status p = finish_text h p
finish_mode h _ status p = done (status, cleanup_stack p)

-- Behind the line of a cue; the cue is still where it was.
finish_cueline : Host → Value → Status × Parser → Run (Status × Parser)
unfolding finish_mode cue_is_incomplete
finish_cueline h (cue_value cue) (status, p) =
    let q =
      if cue_is_incomplete cue then reported cue_incomplete p.lexer.line p.lexer.column p else p in
    let next = record q { lexer = record (q.lexer) { line = q.lexer.line + 1; column = 1 } } in
    let rest = finish_mode h next.mode status next in
    if cue_is_incomplete cue && not (heard h cue_incomplete p.lexer.line p.lexer.column)
    then done (parse_error, q)
    else rest
finish_cueline h _ (status, p) = fault

finish_line : Host → Parser → Value → Value → Run (Status × Parser)
unfolding finish_cueline proc_cueline
finish_line h p (cue_value cue) (text_value text) = do
  r ← proc_cueline h (set_column 1 p) cue text.text
  finish_cueline h (r.1.stack.frames p.stack.top).v r
finish_line h p null v = done (failed_assertion, p)
finish_line h p _ _ = fault

-- A frame in T_CUE: its line is in the frame above.
finish_in_cue : Host → Parser → Run (Status × Parser)
unfolding finish_line is_no_value is_cueread
finish_in_cue h p =
    let new = record (top_frame p.stack) { v = cue_value create_cue; type = v_cue } in
    let q =
      if is_no_value (top_frame p.stack).type
      then record p { stack = set_top p.stack new }
      else p in
    let up = frame_up q.stack in
    let taken = set_up q.stack (record up { v = null; type = v_none; state = t_initial }) in
    if q.popped && is_cueread up.state
    then finish_line h (record q { stack = taken }) (top_frame q.stack).v up.v
    else done (failed_assertion, q)

finish_file : Host → Parser → Run (Status × Parser)
unfolding finish_in_cue is_cue is_cueread cleanup_stack
finish_file h p =
    let reading = is_cueread (top_frame p.stack).state in
    let q = if reading then record p { stack = pop p.stack; popped = true } else p in
    if reading && p.stack.top == 0
    then done (failed_assertion, p)
    else if is_cue (top_frame q.stack).state
    then finish_in_cue h q
    else done (success, cleanup_stack q)

finish_first : Host → Mode → Parser → Run (Status × Parser)
unfolding finish_file finish_text cleanup_stack
finish_first h m_webvtt p = finish_file h p
finish_first h m_cuetext p = finish_text h p
finish_first h m_skip_cue p = done (success, cleanup_stack p)

-- The second call does nothing.
unfoldable pub finish_parsing : Host → Parser → Run (Status × Parser)
unfolding finish_first
finish_parsing h p =
    if p.finished then done (success, p) else finish_first h p.mode (record p { finished = true })
