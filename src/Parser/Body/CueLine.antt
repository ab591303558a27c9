-- ===== src/Parser/Body/CueLine.antt =====
-- `webvtt_proc_cueline` and the state T_CUE (src/libwebvtt/parser.c), behind the header of a file.
use webvtt.Base.{
  ℕ, ◌+◌, ◌*◌, ◌≤◌, ◌≡◌, refl, ◌∙◌, ◌⊎◌, inl, inr, Bool, Bool-cases, true, false, Bytes, arith,
  length, ◌&&◌,
}
use webvtt.Cue.{Cue}
use webvtt.Lexer.{l_start, Lexer}
use webvtt.Parser.{Host, Parser}
use webvtt.Parser.Body.{
  Ends, Ends-bind, placed, stack_at, HasCue, HasText, IsCueFrame, in_line, has_line, stuck, in_text,
  Holding, Lexing, Going, NextOk,
}
use webvtt.Parser.CueLine.{
  c_string, find_bytes, separator, set_column, heard, is_parse_error, push0, timings_read,
  timings_line, id_line, second_id, proc_cueline,
}
use webvtt.Parser.Stack.{
  t_body, v_none, Value, null, cue_value, text_value, Frame, set_frame, do_push,
}
use webvtt.Parser.Webvtt.{is_cueread, is_webvtt, line_read, cue_line, on_cue}
use webvtt.Status.{Status, cue_incomplete}
use webvtt.StringData.{StringData}
use webvtt.StringData.Bounds.{IsSound, init_string-IsSound}
use webvtt.Timings.{Timings}
use webvtt.Timings.Total.{IsOutcome, collect_timings_and_settings_total}

-- What the line leaves: a frame that reads the line of the times, a cue that was refused, or a cue
-- whose text is due.
abbrev NewLine : Bool → Status × Parser → Type 0
NewLine finish (status, q) =
    (g : ℕ → Frame) × (q.stack ≡ stack_at g 2)
    × Holding in_line g q.popped
    × ((g 2).flags ≡ 0)
    × Going finish true q

abbrev Refused : Bool → Status × Parser → Type 0
Refused finish (status, q) =
    (g : ℕ → Frame) × (q.stack ≡ stack_at g 1)
    × ((g 0).state ≡ t_body)
    × IsCueFrame (g 1)
    × Going finish true q

abbrev TextDue : Bool → Status × Parser → Type 0
TextDue finish (status, q) =
    (g : ℕ → Frame) × (q.stack ≡ stack_at g 1) × Holding in_text g q.popped × Going finish false q

abbrev SameToken : Lexer → Status × Parser → Type 0
SameToken l (status, q) = (q.lexer.tstate ≡ l.tstate) × (q.lexer.token ≡ l.token)

abbrev pub ProcOk : Bool → Lexer → Status × Parser → Type 0
ProcOk finish l r = SameToken l r × (NewLine finish r ⊎ Refused finish r ⊎ TextDue finish r)

module _ {finish : Bool} (f : ℕ → Frame) (p : Parser) (holding : Holding in_text f p.popped)
    (going : Going finish true p) where
  timings_read_ok :
      (r : Timings) → IsOutcome r.status → ProcOk finish p.lexer (timings_read (placed p f 1) r)
  unfolding timings_read is_parse_error is_webvtt
  timings_read_ok r (inl e) = rw e (
    (refl, refl),
    inr (
        inr (
          _,
          refl,
          (holding.0, (holding.1.0, holding.1.1, tt), holding.2),
          (refl, going.1, going.2),
        )),
  )
  timings_read_ok r (inr (inl e)) = rw e (
    (refl, refl),
    inr (
        inr (
          _,
          refl,
          (holding.0, (holding.1.0, holding.1.1, tt), holding.2),
          (refl, going.1, going.2),
        )),
  )
  timings_read_ok r (inr (inr e)) =
      rw e ((refl, refl), inr (inl (_, refl, holding.0, (holding.1.0, holding.1.1, tt), going)))

module _ {finish : Bool} (h : Host) (f : ℕ → Frame) (p : Parser) (cue : Cue)
    (holding : Holding in_text f p.popped) (going : Going finish true p) where
  timings_line_ok :
      (text : Bytes) → Ends (ProcOk finish p.lexer) (timings_line h (placed p f 1) cue text)
  unfolding timings_line
  timings_line_ok text =
      let (r, e, outcome, keeps) =
        collect_timings_and_settings_total h.heed p.lexer.line p.lexer.column cue (c_string text) in
      rw e
        (timings_read_ok f (record p { cuetext_line = p.lexer.line + 1 }) holding going r outcome)

  second_id_ok : ProcOk finish p.lexer (second_id h (placed p f 1))
  unfolding second_id is_webvtt
  second_id_ok = elim (Bool-cases (heard h cue_incomplete p.lexer.line p.lexer.column)) [
    | inl heeded ↦ rw heeded ((refl, refl), inr (inr (f, refl, holding, (refl, going.1, going.2))))
    | inr refused ↦ rw refused ((refl, refl), inr (inl (f, refl, holding.0, holding.1, going)))
  ]

  id_line_ok : (text : Bytes) → Ends (ProcOk finish p.lexer) (id_line (placed p f 1) cue text)
  unfolding id_line push0 do_push
  id_line_ok text = (
    (refl, refl),
    inl (
      _,
      refl,
      (holding.0, (holding.1.0, holding.1.1, tt), refl, init_string-IsSound),
      refl,
      going,
    ),
  )

-- Whatever the line is.
pub proc_cueline_ok :
    {finish : Bool} (h : Host) (f : ℕ → Frame) (p : Parser) (cue : Cue) (text : Bytes)
    → Holding in_text f p.popped
    → Going finish true p
    → Ends (ProcOk finish p.lexer) (proc_cueline h (placed p f 1) cue text)
unfolding proc_cueline
proc_cueline_ok h f p cue text holding going =
    let q = set_column 1 p in
    elim (Bool-cases (find_bytes text separator)) [
      | inl times ↦ rw times (timings_line_ok h f q cue holding going text)
      | inr other ↦ elim (Bool-cases cue.flags.have_id) [
        | inl again ↦ rw (other, again) (second_id_ok h f q cue holding going)
        | inr first ↦ rw (other, first) (id_line_ok h f q cue holding going text)
      ]
    ]

line_read_ok :
    {finish : Bool} (rest : Bytes) (l : Lexer) (n : ℕ) (r : Status × Parser)
    → (l.tstate ≡ l_start) × (length l.token ≤ 2)
    → 4 * length rest + 2 ≤ n
    → ProcOk finish l r
    → NextOk finish n (line_read rest r)
unfolding line_read
line_read_ok rest l n (status, q) (start, short) less (same, inl (g, e, holding, flags, going)) =
    rw going.0 (
      in_line,
      refl,
      record {
        frames = g;
        stack = e;
        holding = holding;
        lexing = inl (flags, same.0 ∙ start, refl);
        mode = going;
      },
      rw (same.0, start) (omega arith),
    )
line_read_ok rest l n (status, q) (start, short) less (same, inr (inl (g, e, body, cue, going))) =
    rw going.0 (
      stuck,
      refl,
      record {
        frames = g;
        stack = e;
        holding = (body, cue, refl);
        lexing = rw (same.0, start) refl;
        mode = going;
      },
      rw (same.0, start) (omega arith),
    )
line_read_ok rest l n (status, q) (start, short) less (same, inr (inr (g, e, holding, going))) =
    rw going.0 (
      inr (
        in_text,
        inr refl,
        record {
          frames = g;
          stack = e;
          holding = holding;
          lexing = (same.0 ∙ start, rw same.1 short);
          mode = going;
        },
        omega arith,
      ))

pub has_cue : (v : Value) → HasCue v → (cue : Cue) × (v ≡ cue_value cue)
has_cue (cue_value cue) h = (cue, refl)
has_cue _ h = absurd h

pub has_text : (v : Value) → HasText v → (text : StringData) × (v ≡ text_value text) × IsSound text
has_text (text_value text) h = (text, refl, h)
has_text _ h = absurd h

-- The line that was read is taken from the frame above.
pub on_cue_line :
    {finish : Bool} (h : Host) (status : Status) (p : Parser) (rest : Bytes) (f : ℕ → Frame) (n : ℕ)
    → Holding has_line f p.popped
    → Lexing has_line 0 p.lexer
    → Going finish true p
    → 4 * length rest + 2 ≤ n
    → Ends (NextOk finish n) (on_cue h status (placed p f 1) rest)
unfolding on_cue cue_line is_cueread
on_cue_line {finish = finish} h status p rest f n (body, cue_frame, cueread, text_there, popped)
      lexing going less =
    let (cue, is_cue) = has_cue (f 1).v cue_frame.2 in
    let (text, is_text, sound) = has_text (f 2).v text_there in
    let above : (p.popped && is_cueread (f 2).state) ≡ true = rw (popped, cueread) refl in
    let g = set_frame f 2 (record (f 2) { type = v_none; v = null }) in
    rw (above, is_cue, is_text)
      (Ends-bind (ProcOk finish p.lexer) (NextOk finish n)
        (proc_cueline h (placed p g 1) cue text.text) _
        (proc_cueline_ok h g p cue text.text (body, cue_frame, refl) going)
        (λ r ok. line_read_ok rest p.lexer n r lexing less ok))

-- Behind a line that was refused nothing goes on.
pub on_cue_stuck :
    (finish : Bool) (h : Host) (status : Status) (p : Parser) (rest : Bytes) (f : ℕ → Frame) (n : ℕ)
    → p.popped ≡ false
    → Ends (NextOk finish n) (on_cue h status (placed p f 1) rest)
unfolding on_cue
on_cue_stuck finish h status p rest f n popped = rw popped (inl (refl, omega arith))
