-- ===== src/Parser/CueLine.antt =====
-- src/libwebvtt/parser.c: `find_bytes` and `webvtt_proc_cueline`, which reads a line that holds a
-- cue's identifier or its times.
use webvtt.Base.{
  ℕ, ◌+◌, Bool, true, false, ◌||◌, [], ◌∷◌, ◌++◌, Bytes, codes, ltb, ◌==◌, if◌then◌else◌, length,
}
use webvtt.Cue.{Cue}
use webvtt.Cue.Apply.{Report}
use webvtt.Lexer.{LexToken, unfinished_token}
use webvtt.Parser.{Host, m_cuetext, m_skip_cue, Parser, Run, done, ◌>>=◌, or_fault, or_out_of_fuel}
use webvtt.Parser.Stack.{
  ParseState, t_cueread, ValueType, v_none, v_text, Value, null, cue_value, text_value, top_frame,
  set_top, do_push,
}
use webvtt.Status.{Status, success, parse_error, failed, Error, cue_incomplete}
use webvtt.StringData.{init_string}
use webvtt.StringData.Replace.{starts_with}
use webvtt.Timings.{Timings, collect_timings_and_settings}

-- The text up to its NUL.
abbrev pub c_string : Bytes → Bytes
c_string [] = []
c_string (c ∷ s) = if c == 0 then [] else c ∷ c_string s

-- Whether the search text is found before a NUL.
unfoldable pub find_bytes : Bytes → Bytes → Bool
unfolding starts_with
find_bytes [] s = false
find_bytes (c ∷ buffer) s =
    if ltb (length (c ∷ buffer)) (length s) || c == 0
    then false
    else starts_with (c ∷ buffer) s || find_bytes buffer s

abbrev pub separator : Bytes
separator = codes "-->"

-- A call of the error function: its report is kept, and `heard` tells whether the parser is to go on.
abbrev pub report_at : Error → ℕ → ℕ → Report
report_at error line column = record { error = error; line = line; column = column }

abbrev pub reported : Error → ℕ → ℕ → Parser → Parser
reported error line column p = record p { reports = p.reports ++ report_at error line column ∷ [] }

abbrev pub heard : Host → Error → ℕ → ℕ → Bool
heard h error line column = h.heed (report_at error line column)

abbrev pub set_column : ℕ → Parser → Parser
set_column column p = record p { lexer = record (p.lexer) { column = column } }

-- The cue that the top frame points to, changed.
abbrev pub set_cue : Cue → Parser → Parser
set_cue cue p = record p {
  stack = set_top p.stack (record (top_frame p.stack) { v = cue_value cue });
}

-- `PUSH0`, at the line and column that are given.
unfoldable pub push0 : LexToken → ParseState → Value → ValueType → ℕ → ℕ → Parser → Run Parser
unfolding do_push
push0 token state v type line column p = do
  s ← or_fault (
      do_push p.stack (record {
        state = state;
        flags = 0;
        token = token;
        type = type;
        back = (top_frame p.stack).back + 1;
        line = line;
        column = column;
        v = v;
      }))
  done (record p { stack = s; popped = false })

abbrev with_settings : Parser → Timings → Parser
with_settings p r = record (set_cue r.cue (set_column r.column p)) {
  reports = p.reports ++ r.reports;
}

unfoldable pub is_parse_error : Status → Bool
is_parse_error parse_error = true
is_parse_error _ = false

-- What the times of the line lead to. Every status but success is negative.
unfoldable pub timings_read : Parser → Timings → Status × Parser
unfolding is_parse_error
timings_read p r =
    if failed r.status
    then (if is_parse_error r.status
        then (parse_error, with_settings p r)
        else (success, record (with_settings p r) { mode = m_skip_cue }))
    else (
      success,
      record (with_settings p (record r {
        cue = record (r.cue) { flags = record (r.cue.flags) { have_cueparams = true } };
      })) { mode = m_cuetext },
    )

unfoldable pub timings_line : Host → Parser → Cue → Bytes → Run (Status × Parser)
unfolding timings_read collect_timings_and_settings
timings_line h p cue text = do
  r ←
      or_out_of_fuel
        (collect_timings_and_settings h.heed p.lexer.line p.lexer.column cue (c_string text))
  done (timings_read (record p { cuetext_line = p.lexer.line + 1 }) r)

-- The frame that reads the line of the times.
unfoldable pub id_line : Parser → Cue → Bytes → Run (Status × Parser)
unfolding push0
id_line p cue text = do
  let cue' = record cue { id = cue.id ++ text; flags = record (cue.flags) { have_id = true } }
  let q = record (set_cue cue' (set_column (p.lexer.column + length text) p)) {
    cuetext_line = p.lexer.line;
  }
  r ← push0 unfinished_token t_cueread null v_none p.lexer.line p.lexer.column q
  done (
    success,
    record r {
      stack =
          set_top r.stack
            (record (top_frame r.stack) { v = text_value init_string; type = v_text });
    },
  )

unfoldable pub second_id : Host → Parser → Status × Parser
second_id h p =
    let q = reported cue_incomplete p.lexer.line p.lexer.column p in
    if heard h cue_incomplete p.lexer.line p.lexer.column
    then (success, record q { mode = m_skip_cue })
    else (parse_error, q)

-- The cue is that of the top frame.
unfoldable pub proc_cueline : Host → Parser → Cue → Bytes → Run (Status × Parser)
unfolding find_bytes timings_line id_line second_id
proc_cueline h p cue text =
    let q = set_column 1 p in
    if find_bytes text separator
    then timings_line h q cue text
    else if cue.flags.have_id
    then done (second_id h q)
    else id_line q cue text
