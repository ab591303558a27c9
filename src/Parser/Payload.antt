-- ===== src/Parser/Payload.antt =====
-- src/libwebvtt/parser.c: `webvtt_read_cuetext` and `webvtt_proc_cuetext`, which read the text of a
-- cue, and `finish_cue`, which hands the cue over.
use webvtt.Base.{
  ℕ, zero, suc, ◌+◌, ◌-◌, ◌*◌, Bool, true, false, not, ◌&&◌, ◌||◌, Option, none, some, [], ◌∷◌,
  ◌++◌, Bytes, ◌==◌, if◌then◌else◌, length, take,
}
use webvtt.Cue.{Cue, create_cue, validate_cue}
use webvtt.CueText.Tree.{Tree, parse_cuetext}
use webvtt.Lexer.{bom, Lexed, lex_newline}
use webvtt.Parser.{
  Host, header, Mode, m_webvtt, m_skip_cue, Parser, Run, done, fault, too_long, out_of_fuel, ◌>>=◌,
  or_fault, or_too_long, or_out_of_fuel,
}
use webvtt.Parser.CueLine.{c_string, find_bytes, separator, set_cue}
use webvtt.Parser.Stack.{
  t_initial, t_cue, t_cueread, ValueType, v_none, v_cue, v_text, Value, null, cue_value, text_value,
  number, top_frame, frame_up, set_top, set_up, do_push, pop,
}
use webvtt.Parser.Webvtt.{with_lexed, reset_token, popped_one, is_newline, Exit}
use webvtt.Status.{Status, success, unfinished, failed_assertion}
use webvtt.StringData.{StringData, create_string, putc, getline}
use webvtt.StringData.Replace.{string_replace_all}
use webvtt.StringData.Replace.Nul.{nul, replacement}

-- The variables of the loop: the parser, the text from `pos` on, `finished`, and `flags`.
pub record Reading : Type 0 where
  pub parser : Parser
  pub rest : Bytes
  pub finished : Bool
  pub flags : Bool

unfoldable pub last_is_newline : Bytes → Bool
last_is_newline [] = false
last_is_newline (c ∷ []) = c == b'\n'
last_is_newline (c ∷ d ∷ s) = last_is_newline (d ∷ s)

-- Whether the buffer of lines ends with the line feed that marks a complete line. The source looks at
-- the byte before the text of an empty one, which is not in its block.
unfoldable pub complete : Option StringData → Run Bool
unfolding last_is_newline
complete none = done false
complete (some str) = if length str.text == 0 then fault else done (last_is_newline str.text)

unfoldable pub buffer_of : Host → Option StringData → Option StringData
buffer_of h none = create_string (header h) 0x100
buffer_of h (some str) = some str

-- `truncate` is given, so it is there afterwards.
unfoldable pub count_of : Option ℕ → ℕ → ℕ
count_of none n = n
count_of (some k) n = k

-- A complete line: its mark, and no NUL.
unfoldable pub mark_line : Host → StringData → Run StringData
unfolding putc string_replace_all
mark_line h str = do
  q ← or_too_long (header h + (str.alloc + 1)) (putc (header h) str b'\n')
  or_too_long (header h + (3 * length q.text + 3)) (string_replace_all (header h) q nul replacement)

unfoldable pub read_part : Host → Bool → Reading → Run Reading
unfolding buffer_of count_of mark_line getline
read_part h finish r = do
  let p = r.parser
  b ← or_fault (buffer_of h p.line_buffer)
  l ←
      or_too_long (header h + (length b.text + (length r.rest + 1)))
        (getline (header h) b r.rest (some p.truncate) finish)
  str ← if l.ended then mark_line h l.str else done l.str
  done (record r {
    parser = record p { line_buffer = some str; truncate = count_of l.truncate p.truncate };
    rest = l.rest;
    flags = l.ended;
  })

-- The line is left in the frame above, as if it had been read there.
unfoldable pub line_of_next : Reading → Parser → StringData → Run Reading
unfolding do_push
line_of_next r p str = do
  s ← or_fault (
      do_push p.stack (record {
        state = t_cueread;
        flags = 0;
        token = bom;
        type = v_text;
        back = 0;
        line = p.lexer.line;
        column = p.lexer.column;
        v = text_value str;
      }))
  done (record r { parser = popped_one (record p { stack = s }); finished = true })

-- The line without its mark ends the text, begins another cue, or belongs to the text.
unfoldable pub take_line : Reading → Parser → StringData → Cue → Run Reading
unfolding line_of_next find_bytes
take_line r p str cue =
    let text = take (length str.text - 1) str.text in
    let released = record p { line_buffer = none } in
    let joined = if length cue.body == 0 then cue.body else cue.body ++ b'\n' ∷ [] in
    if length text == 0
    then done (record r { parser = released; finished = true })
    else if find_bytes text separator
    then line_of_next r released (record str { text = text; terminated = true })
    else done (record r {
      parser = set_cue (record cue { body = joined ++ text }) released;
      flags = false;
    })

-- The line feed or carriage return behind a complete line; without a token the loop goes on as it was.
unfoldable pub end_of_line : Reading → Lexed × Bool → Value → Option StringData → Run Reading
unfolding take_line is_newline
end_of_line r (l, true) v buffer = fault
end_of_line r (l, false) (cue_value cue) (some str) =
    let p = with_lexed r.parser l in
    let q = reset_token (record p { lexer = record (p.lexer) { line = p.lexer.line + 1 } }) in
    if is_newline l.token
    then take_line (record r { rest = l.rest }) q str cue
    else done (record r { parser = p; rest = l.rest })
end_of_line r (l, false) v buffer = fault

unfoldable pub read_end : Bool → Reading → Run Reading
unfolding end_of_line lex_newline
read_end finish r = do
  l ← or_fault (lex_newline finish r.rest r.parser.lexer)
  end_of_line r l (top_frame r.parser.stack).v r.parser.line_buffer

-- One round of the loop.
unfoldable pub read_round : Host → Bool → Reading → Run Reading
unfolding read_part read_end
read_round h finish r = do
  q ← if r.flags then done r else read_part h finish r
  if q.flags then read_end finish q else done q

-- What a round leads to; `more` is the rest of the loop.
abbrev pub read_on : (Reading → Run Reading) → Reading → Bool → Run Reading
read_on more q true = done q
read_on more q false = more q

abbrev pub read_more : (Reading → Run Reading) → Run Reading → Run Reading
read_more more (done q) = read_on more q (length q.rest == 0 || q.finished)
read_more more fault = fault
read_more more too_long = too_long
read_more more out_of_fuel = out_of_fuel

-- `do { ... } while( pos < len && !finished )`, with fuel.
unfoldable pub read_loop : ℕ → Host → Bool → Reading → Run Reading
unfolding read_round
read_loop zero h finish r = out_of_fuel
read_loop (suc fuel) h finish r = read_more (read_loop fuel h finish) (read_round h finish r)

unfoldable pub read_status : Bool → Reading → Status
read_status finish r =
    if not finish && length r.rest == 0 && not r.finished then unfinished else success

unfoldable pub read_cuetext : Host → Bool → Parser → Bytes → Run Exit
unfolding read_loop read_status complete
read_cuetext h finish p rest = do
  flags ← complete p.line_buffer
  r ← read_loop (2 * length rest + 2) h finish (record {
    parser = record p { stack = set_top p.stack (record (top_frame p.stack) { type = v_cue }) };
    rest = rest;
    finished = false;
    flags = flags;
  })
  done (read_status finish r, r.parser, r.rest)

-- `finish_cue`: an invalid cue is dropped.
unfoldable pub finish_cue : Parser → Cue → Tree → Parser
finish_cue p cue tree =
    if validate_cue cue then record p { cues = p.cues ++ (cue, tree) ∷ [] } else p

unfoldable pub is_cue_value : ValueType → Bool
is_cue_value v_cue = true
is_cue_value _ = false

unfoldable pub is_no_value : ValueType → Bool
is_no_value v_none = true
is_no_value _ = false

unfoldable pub hand_over : Host → Mode → Parser → Cue → Run Parser
unfolding parse_cuetext finish_cue
hand_over h m_skip_cue p cue = done p
hand_over h _ p cue = do
  tree ← or_out_of_fuel (parse_cuetext h.garbage h.kind (c_string cue.body))
  done (finish_cue p cue tree)

-- The frame of the cue is given up, or begins the cue whose times were found.
unfoldable pub close_cue : Parser → Parser
unfolding is_no_value
close_cue p =
    let cleared =
      set_top p.stack (record (top_frame p.stack) { type = v_none; state = t_initial; v = null }) in
    let up = frame_up cleared in
    let next = record (top_frame cleared) {
      type = v_cue;
      state = t_cue;
      v = cue_value create_cue;
    } in
    if is_no_value up.type
    then record p {
      stack = pop (set_up cleared (record up { state = t_initial }));
      popped = true;
      mode = m_webvtt;
    }
    else record p { stack = set_top cleared next; mode = m_webvtt }

unfoldable pub close_text : Host → Exit → Value → Run Exit
unfolding hand_over close_cue
close_text h (success, p, rest) (cue_value cue) = do
  q ← hand_over h p.mode p cue
  done (success, close_cue q, rest)
close_text h (success, p, rest) v = fault
close_text h exit v = done exit

unfoldable pub in_cue : Mode → Bool
in_cue m_webvtt = false
in_cue _ = true

unfoldable pub read_payload : Host → Bool → Parser → Bytes → Run Exit
unfolding read_cuetext close_text
read_payload h finish p rest = do
  e ← read_cuetext h finish p rest
  close_text h e (top_frame e.1.stack).v

-- The asserted conditions are those of a cue whose text is due.
unfoldable pub proc_cuetext : Host → Bool → Parser → Bytes → Run Exit
unfolding read_payload in_cue is_cue_value
proc_cuetext h finish p rest =
    let due = in_cue p.mode && is_cue_value (top_frame p.stack).type in
    let text = read_payload h finish p rest in
    if due
    then elim (top_frame p.stack).v [
      | null ↦ done (failed_assertion, p, rest)
      | cue_value cue ↦ text
      | text_value t ↦ fault
      | number n ↦ fault
    ]
    else done (failed_assertion, p, rest)
