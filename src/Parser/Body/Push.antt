-- ===== src/Parser/Body/Push.antt =====
-- The rounds of `parse_webvtt` (src/libwebvtt/parser.c) that push frames behind the header.
use webvtt.Base.{
  ◌^◌, ℕ, ◌+◌, ◌*◌, ◌≤◌, ◌<◌, ◌≡◌, refl, ap, ◌∙◌, ◌⊎◌, inl, inr, Bool, Bool-cases, true, false,
  some, Bytes, arith, length, leb, ltb, ◌&&◌,
}
use webvtt.Cue.{create_cue}
use webvtt.Lexer.{LexToken, newline, l_start}
use webvtt.Parser.{Host, header, Parser, done}
use webvtt.Parser.Body.{
  Ends, placed, stack_at, HasCount, Counted, in_body, in_line, in_eol, Holding, Going, Shape,
  NextOk, header_positive,
}
use webvtt.Parser.CueLine.{reported, heard, push0}
use webvtt.Parser.Stack.{
  ParseState, t_initial, t_body, t_eol, t_cue, t_cueread, ValueType, v_cue, v_text, Value, null,
  cue_value, text_value, number, Frame, set_frame, top_frame, do_pop, do_push,
}
use webvtt.Parser.Webvtt.{
  reset_token, again, begin_cue, body_token, after_eol, on_body, few_newlines, is_eol, increment,
  count_newline, on_state,
}
use webvtt.Status.{Status, success, expected_eol}
use webvtt.StringData.{StringData, append, init_string}
use webvtt.StringData.Bounds.{IsSound, init_string-IsSound, append_total}

-- The frame that PUSH0 writes.
abbrev pub pushed : LexToken → ParseState → Value → ValueType → ℕ → ℕ → ℕ → Frame
pushed token state v type back line column = record {
  state = state;
  flags = 0;
  token = token;
  type = type;
  back = back;
  line = line;
  column = column;
  v = v;
}

-- With room in the array, PUSH0 writes the next frame.
pub push0_room :
    (f : ℕ → Frame) (n : ℕ) (token : LexToken) (state : ParseState) (v : Value) (type : ValueType)
    (line column : ℕ) (p : Parser)
    → p.stack ≡ stack_at f n
    → n ≤ 253
    → push0 token state v type line column p
      ≡ done (record p {
        stack =
            stack_at
              (set_frame f (n + 1) (pushed token state v type ((f n).back + 1) line column))
              (n + 1);
        popped = false;
      })
unfolding push0 do_push
push0_room f n token state v type line column p e room =
    let full : leb 0x100 (n + 1) ≡ false = ground arith in
    let fits : ltb (n + 1) 0x100 ≡ true = ground arith in rw (e, full, fits) refl

-- Two frames, and the token given up.
abbrev begun : (ℕ → Frame) → LexToken → ℕ → ℕ → Parser → StringData → Parser
begun f token line column p tk =
    let one = pushed token t_cue (cue_value create_cue) v_cue ((f 0).back + 1) line column in
    let two = pushed token t_cueread null v_text ((f 0).back + 1 + 1) line column in
    let g = set_frame (set_frame f 1 one) 2 two in
    reset_token (record p {
      stack = stack_at (set_frame g 2 (record two { v = text_value tk })) 2;
      popped = false;
    })

begin_cue_lem :
    (h : Host) (token : LexToken) (line column : ℕ) (status : Status) (p : Parser) (rest : Bytes)
    (f : ℕ → Frame) (tk : StringData)
    → p.stack ≡ stack_at f 0
    → leb (header h + length p.lexer.token) (2 ^ 31) ≡ true
    → append (header h) init_string p.lexer.token ≡ some tk
    → begin_cue h token line column status p rest
      ≡ done (again success (begun f token line column p tk) rest)
unfolding begin_cue push0 do_push
begin_cue_lem h token line column status p rest f tk e small t = rw (small, e, t) refl

begun-Shape :
    {finish : Bool} (f : ℕ → Frame) (token : LexToken) (line column : ℕ) (p : Parser)
    (tk : StringData)
    → (f 0).state ≡ t_body
    → Going finish true p
    → p.lexer.tstate ≡ l_start
    → IsSound tk
    → Shape finish in_line (begun f token line column p tk)
begun-Shape f token line column p tk body mode start sound = record {
  frames = (begun f token line column p tk).stack.frames;
  stack = refl;
  holding = (body, (refl, refl, tt), refl, sound);
  lexing = inl (refl, start, refl);
  mode = mode;
}

begin_cue-Ends :
    {finish : Bool} (h : Host) (token : LexToken) (line column : ℕ) (status : Status) (p : Parser)
    (rest : Bytes) (f : ℕ → Frame) (n : ℕ)
    → p.stack ≡ stack_at f 0
    → (f 0).state ≡ t_body
    → Going finish true p
    → p.lexer.tstate ≡ l_start
    → 4 * length rest < n
    → Ends (NextOk finish n) (begin_cue h token line column status p rest)
begin_cue-Ends h token line column status p rest f n e body mode start less =
    elim (Bool-cases (leb (header h + length p.lexer.token) (2 ^ 31))) [
      | inl small ↦
          let (tk, t, text, sound) =
            append_total (header h) (header_positive h) init_string p.lexer.token
              init_string-IsSound (ground arith) in
          rw (begin_cue_lem h token line column status p rest f tk e small t) (
            in_line,
            refl,
            begun-Shape f token line column p tk body mode start sound,
            rw start (omega arith),
          )
      | inr large ↦ unfold begin_cue in rw large tt
    ]

body_token-Ends :
    {finish : Bool} (h : Host) (token : LexToken) (line column : ℕ) (status : Status) (p : Parser)
    (rest : Bytes) (f : ℕ → Frame) (n : ℕ)
    → p.stack ≡ stack_at f 0
    → ((f 0).state ≡ t_body) × Counted (f 1).state (f 1).v
    → Going finish true p
    → p.lexer.tstate ≡ l_start
    → 4 * length rest < n
    → (token ≡ newline → 4 * length rest + 1 < n)
    → Ends (NextOk finish n) (body_token h token line column status p rest)
unfolding body_token
body_token-Ends h newline line column status p rest f n e (body, count) mode start less line_end = (
  in_body,
  refl,
  record { frames = f; stack = e; holding = (body, count); lexing = rw start refl; mode = mode },
  rw start (omega (arith, line_end refl)),
)
body_token-Ends h token line column status p rest f n e (body, count) mode start less line_end =
    begin_cue-Ends h token line column status p rest f n e body mode start less

-- The frame above has been looked at.
abbrev spent : (ℕ → Frame) → ℕ → Frame
spent f = set_frame f 1 (record (f 1) { state = t_initial; v = null })

abbrev after_few : Parser → (ℕ → Frame) → Parser
after_few p f = record (reported expected_eol p.lexer.line 1 p) { stack = stack_at (spent f) 0 }

after_eol-Ends :
    {finish : Bool} (h : Host) (token : LexToken) (line column : ℕ) (status : Status) (p : Parser)
    (rest : Bytes) (few : Bool) (f : ℕ → Frame) (n : ℕ)
    → p.stack ≡ stack_at f 0
    → ((f 0).state ≡ t_body) × Counted (f 1).state (f 1).v
    → Going finish true p
    → p.lexer.tstate ≡ l_start
    → 4 * length rest < n
    → (token ≡ newline → 4 * length rest + 1 < n)
    → Ends (NextOk finish n) (after_eol h token line column status p rest few)
unfolding after_eol
after_eol-Ends h token line column status p rest true f n e holding mode start less line_end =
    elim (Bool-cases (heard h expected_eol p.lexer.line 1)) [
      | inl heeded ↦
          rw (heeded, e)
            (body_token-Ends h token line column status (after_few p f) rest (spent f) n refl
              (holding.0, tt) mode start less line_end)
      | inr refused ↦ rw (refused, e) (inl (refl, omega arith))
    ]
after_eol-Ends h token line column status p rest false f n e holding mode start less line_end =
    rw e (
      body_token-Ends h token line column status (record p { stack = stack_at (spent f) 0 }) rest
        (spent f) n refl (holding.0, tt) mode start less line_end)

few_newlines_lem : (v : Value) → HasCount v → (few : Bool) × (few_newlines v ≡ some few)
unfolding few_newlines
few_newlines_lem null h = (true, refl)
few_newlines_lem (number n) h = (ltb n 2, refl)
few_newlines_lem (cue_value _) h = absurd h
few_newlines_lem (text_value _) h = absurd h

counted : (state : ParseState) (v : Value) → Counted state v → is_eol state ≡ true → HasCount v
unfolding is_eol
counted t_eol v h e = h
counted _ v h e = absurd (cc e)

pub on_body-Ends :
    {finish : Bool} (h : Host) (token : LexToken) (line column : ℕ) (status : Status) (p : Parser)
    (rest : Bytes) (f : ℕ → Frame) (n : ℕ)
    → ((f 0).state ≡ t_body) × Counted (f 1).state (f 1).v
    → Going finish true p
    → p.lexer.tstate ≡ l_start
    → 4 * length rest < n
    → (token ≡ newline → 4 * length rest + 1 < n)
    → Ends (NextOk finish n) (on_body h token line column status (placed p f 0) rest)
unfolding on_body
on_body-Ends h token line column status p rest f n (body, count) mode start less line_end =
    elim (Bool-cases (p.popped && is_eol (f 1).state)) [
      | inl ends ↦
          let (few, found) =
            few_newlines_lem (f 1).v (counted (f 1).state (f 1).v count (ground arith)) in
          rw (ends, found)
            (after_eol-Ends h token line column status (placed p f 0) rest few f n refl
              (body, count) mode start less line_end)
      | inr other ↦ rw other (
          body_token-Ends h token line column status (placed p f 0) rest f n refl (body, count) mode
            start less line_end)
    ]

increment_lem : (v : Value) → HasCount v → (w : Value) × (increment v ≡ some w) × HasCount w
unfolding increment
increment_lem null h = (_, refl, tt)
increment_lem (number n) h = (_, refl, tt)
increment_lem (cue_value _) h = absurd h
increment_lem (text_value _) h = absurd h

count_newline-Ends :
    {finish : Bool} (status : Status) (p : Parser) (rest : Bytes) (f : ℕ → Frame) (n : ℕ)
    → Holding in_eol f p.popped
    → Going finish true p
    → p.lexer.tstate ≡ l_start
    → 4 * length rest + 1 < n
    → Ends (NextOk finish n) (count_newline status (placed p f 1) rest)
unfolding count_newline
count_newline-Ends status p rest f n (body, eol, back, count) mode start less =
    let (w, e, counts) = increment_lem (f 1).v count in
    rw e (
      in_eol,
      refl,
      record {
        frames = set_frame f 1 (record (f 1) { v = w });
        stack = refl;
        holding = (body, eol, back, counts);
        lexing = rw start refl;
        mode = mode;
      },
      rw start (omega arith),
    )

-- Another token pops the frame of the line ends, and is one of the body.
abbrev behind_eol : Parser → (ℕ → Frame) → Parser
behind_eol p f = placed (record p { popped = true }) (set_frame f 0 (record (f 0) { back = 0 })) 0

do_pop_eol :
    (f : ℕ → Frame)
    → (f 1).back ≡ 1
    → do_pop (stack_at f 1) ≡ stack_at (set_frame f 0 (record (f 0) { back = 0 })) 0
do_pop_eol f back = rw back refl

on_eol_body :
    (h : Host) (token : LexToken) (line column : ℕ) (status : Status) (p : Parser) (rest : Bytes)
    (f : ℕ → Frame)
    → Holding in_eol f p.popped
    → (token ≡ newline)
      ⊎ (on_state 2 h t_eol token line column status (placed p f 1) rest
          ≡ on_body h token line column status (behind_eol p f) rest)
unfolding on_state
on_eol_body h newline line column status p rest f holding = inl refl
on_eol_body h token line column status p rest f (body, eol, back, count) = inr (
    ap
      (λ s.
        on_state 1 h (top_frame s).state token line column status
          (record p { stack = s; popped = true }) rest)
      (do_pop_eol f back)
    ∙ ap (λ state. on_state 1 h state token line column status (behind_eol p f) rest) body)

-- In the line ends behind the header, a line end is counted; another token is one of the body.
pub on_eol-Ends :
    {finish : Bool} (h : Host) (token : LexToken) (line column : ℕ) (status : Status) (p : Parser)
    (rest : Bytes) (f : ℕ → Frame) (n : ℕ)
    → Holding in_eol f p.popped
    → Going finish true p
    → p.lexer.tstate ≡ l_start
    → 4 * length rest < n
    → (token ≡ newline → 4 * length rest + 1 < n)
    → Ends (NextOk finish n) (on_state 2 h t_eol token line column status (placed p f 1) rest)
unfolding on_state
on_eol-Ends h newline line column status p rest f n holding mode start less line_end =
    count_newline-Ends status p rest f n holding mode start (line_end refl)
on_eol-Ends h token line column status p rest f n holding mode start less line_end =
    elim (on_eol_body h token line column status p rest f holding) [
      | inl e ↦ absurd (cc e)
      | inr e ↦ rw e (
          on_body-Ends h token line column status (record p { popped = true }) rest
            (set_frame f 0 (record (f 0) { back = 0 })) n (holding.0, (rw holding.1 holding.3)) mode
            start less line_end)
    ]
