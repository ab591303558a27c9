-- ===== src/Parser/Body/Loop.antt =====
-- `parse_webvtt` (src/libwebvtt/parser.c) behind the header of a file: its loop ends.
use webvtt.Base.{
  ℕ, zero, suc, ◌+◌, ◌*◌, ◌≤◌, ◌<◌, ◌≡◌, refl, sym, ap, ◌∙◌, subst, inl, inr, Bool, true, false, [],
  ◌∷◌, Bytes, arith, length, ◌&&◌,
}
use webvtt.Lexer.{LexState, Lexer}
use webvtt.Lexer.Progress.{from_start, from_start_le, lex-Leads}
use webvtt.Lexer.Safe.{IsReady}
use webvtt.Parser.{Host, Parser, Run, done, fault, too_long, out_of_fuel}
use webvtt.Parser.Body.{
  Ends, Ends-bind, placed, Phase, depth, of_webvtt, in_body, in_eol, in_line, has_line, stuck,
  in_text, Holding, Lexing, Going, Shape, rank, measure, LeftOk, NextOk,
}
use webvtt.Parser.Body.CueLine.{on_cue_line}
use webvtt.Parser.Body.Line.{ReadOk, cue_read_ok}
use webvtt.Parser.Body.Token.{Switch, lexed, body-Switch, eol-Switch, stuck-Switch, token_read-Ends}
use webvtt.Parser.Stack.{Frame, top_frame}
use webvtt.Parser.Webvtt.{
  is_cue, is_cueread, Read, line_done, go_on, after_read, token_read, tokenize, cue_read, Next,
  again, leave, next_exit, webvtt_round, webvtt_loop, Exit, parse_webvtt,
}
use webvtt.Status.{Status, success}

tokenize-Ends :
    (finish : Bool) (h : Host) (line column : ℕ) (status : Status) (p : Parser) (f : ℕ → Frame)
    (phase : Phase) (rest : Bytes) (n : ℕ)
    → (is_cue (f (depth phase)).state && (p.popped && is_cueread (f (depth phase + 1)).state))
      ≡ false
    → IsReady p.lexer
    → Switch finish h line column status p f phase n
    → ((l : Lexer) → IsReady l → Shape finish phase (lexed p l f phase))
    → 4 * length rest + from_start p.lexer.tstate < n
    → Ends (NextOk finish n) (tokenize h finish line column status (placed p f (depth phase)) rest)
unfolding tokenize
tokenize-Ends finish h line column status p f phase rest n other ready switch shape less =
    let (r, found, leads) = lex-Leads finish rest p.lexer ready in
    rw (other, found)
      (token_read-Ends finish h line column status p f phase n (from_start p.lexer.tstate) rest r
        switch shape less leads)

-- Without a line to be read, a round begins with a token.
round_tokenizes :
    (finish : Bool) (h : Host) (status : Status) (p : Parser) (f : ℕ → Frame) (phase : Phase)
    (rest : Bytes) (n : ℕ)
    → is_cueread (f (depth phase)).state ≡ false
    → Ends
        (NextOk finish n)
        (tokenize h finish p.lexer.line p.lexer.column status (placed p f (depth phase)) rest)
    → Ends (NextOk finish n) (webvtt_round h finish status (placed p f (depth phase)) rest)
unfolding webvtt_round
round_tokenizes finish h status p f phase rest n other ends = rw other ends

-- In a line that the chunk does not end, the rest of the round does nothing.
waits :
    (h : Host) (line column n : ℕ) (status : Status) (q : Parser)
    → 0 < n
    → Shape false in_line q
    → Ends (NextOk false n) (tokenize h false line column status q [])
unfolding tokenize token_read is_cue
waits h line column n status q some_left shape =
    let reading : is_cue (top_frame q.stack).state ≡ false =
      rw (shape.stack, shape.holding.2) refl in
    rw reading (inr (in_line, inl refl, shape, omega arith))

after_read-Ends :
    (finish : Bool) (h : Host) (line column n : ℕ) (r : Read)
    → 0 < n
    → ReadOk finish n r
    → Ends (NextOk finish n) (after_read h finish line column r)
unfolding after_read
after_read-Ends finish h line column n (line_done status q rest) some_left
      (g, e, holding, lexing, going, less) =
    (
      has_line,
      refl,
      record { frames = g; stack = e; holding = holding; lexing = lexing; mode = going },
      less,
    )
after_read-Ends finish h line column n (go_on status q rest) some_left
      (none_left, more, (g, e, holding, lexing, going)) =
    let shape : Shape false in_line q = record {
      frames = g;
      stack = e;
      holding = holding;
      lexing = lexing;
      mode = rw (sym more) going;
    } in
    rw (none_left, more) (waits h line column n status q some_left shape)

has_line-Ends :
    (finish : Bool) (h : Host) (line column : ℕ) (status : Status) (p : Parser) (f : ℕ → Frame)
    (rest : Bytes)
    → Holding has_line f p.popped
    → Lexing has_line 0 p.lexer
    → Going finish true p
    → Ends
        (NextOk finish (measure has_line p rest))
        (tokenize h finish line column status (placed p f 1) rest)
unfolding tokenize is_cue is_cueread
has_line-Ends finish h line column status p f rest holding lexing going =
    let above : (is_cue (f 1).state && (p.popped && is_cueread (f 2).state)) ≡ true =
      rw (holding.1.0, holding.2, holding.4) refl in
    rw above (on_cue_line h status p rest f _ holding lexing going (omega arith))

in_line-Ends :
    (finish : Bool) (h : Host) (status : Status) (p : Parser) (f : ℕ → Frame) (rest : Bytes)
    → Holding in_line f p.popped
    → Lexing in_line (f 2).flags p.lexer
    → Going finish true p
    → 0 < length rest
    → Ends
        (NextOk finish (measure in_line p rest))
        (webvtt_round h finish status (placed p f 2) rest)
unfolding webvtt_round is_cueread
in_line-Ends finish h status p f rest holding lexing going some_left =
    let reading : is_cueread (f 2).state ≡ true = rw holding.2 refl in
    let n = measure in_line p rest in
    rw reading (
      Ends-bind (ReadOk finish n) (NextOk finish n)
        (cue_read h finish status (placed p f 2) (f 2).v rest) _
        (cue_read_ok h finish status p f rest n holding lexing going some_left (omega arith))
        (λ r ok. after_read-Ends finish h p.lexer.line p.lexer.column n r (omega arith) ok))

-- What a round leads to, in each phase that is one of `parse_webvtt`.
round-Ends :
    (finish : Bool) (h : Host) (status : Status) (phase : Phase) (p : Parser) (f : ℕ → Frame)
    (rest : Bytes)
    → of_webvtt phase ≡ true
    → Holding phase f p.popped
    → Lexing phase (f (depth phase)).flags p.lexer
    → Going finish true p
    → 0 < length rest
    → Ends
        (NextOk finish (measure phase p rest))
        (webvtt_round h finish status (placed p f (depth phase)) rest)
unfolding is_cue is_cueread
round-Ends finish h status in_body p f rest e holding lexing going some_left =
    round_tokenizes finish h status p f in_body rest _ (rw holding.0 refl) (
      tokenize-Ends finish h _ _ status p f in_body rest _ (rw holding.0 refl) lexing
        (body-Switch finish h _ _ status p f _ holding going)
        (λ l ready. record {
          frames = f;
          stack = refl;
          holding = holding;
          lexing = ready;
          mode = going;
        })
        (omega arith))
round-Ends finish h status in_eol p f rest e holding lexing going some_left =
    round_tokenizes finish h status p f in_eol rest _ (rw holding.1 refl) (
      tokenize-Ends finish h _ _ status p f in_eol rest _ (rw holding.1 refl) lexing
        (eol-Switch finish h _ _ status p f _ holding going)
        (λ l ready. record {
          frames = f;
          stack = refl;
          holding = holding;
          lexing = ready;
          mode = going;
        })
        (omega arith))
round-Ends finish h status stuck p f rest e holding lexing going some_left =
    round_tokenizes finish h status p f stuck rest _ (rw holding.1.0 refl) (
      tokenize-Ends finish h _ _ status p f stuck rest _ (rw (holding.1.0, holding.2) refl) lexing
        (stuck-Switch finish h _ _ status p f _ holding)
        (λ l ready. record {
          frames = f;
          stack = refl;
          holding = holding;
          lexing = ready;
          mode = going;
        })
        (omega arith))
round-Ends finish h status has_line p f rest e holding lexing going some_left =
    round_tokenizes finish h status p f has_line rest _ (rw holding.1.0 refl)
      (has_line-Ends finish h _ _ status p f rest holding lexing going)
round-Ends finish h status in_line p f rest e holding lexing going some_left =
    in_line-Ends finish h status p f rest holding lexing going some_left
round-Ends finish h status in_text p f rest e holding lexing going some_left = absurd (cc e)

-- A round in any phase.
round-Shape :
    (finish : Bool) (h : Host) (status : Status) (phase : Phase) (p : Parser) (rest : Bytes)
    → of_webvtt phase ≡ true
    → Shape finish phase p
    → 0 < length rest
    → Ends (NextOk finish (measure phase p rest)) (webvtt_round h finish status p rest)
round-Shape finish h status phase p rest e shape some_left =
    subst (λ q. Ends (NextOk finish (measure phase p rest)) (webvtt_round h finish status q rest))
      (ap (λ s. record p { stack = s }) (sym shape.stack))
      (round-Ends finish h status phase p shape.frames rest e shape.holding shape.lexing
        (shape.mode.0 ∙ e, shape.mode.1, shape.mode.2) some_left)

abbrev pub ExitOk : Bool → ℕ → Exit → Type 0
ExitOk finish n (status, p, rest) = LeftOk finish n status p rest

next-Ends :
    (finish : Bool) (n m : ℕ) (more : Status → Parser → Bytes → Run Exit) (r : Run Next)
    → n ≤ m
    → Ends (NextOk finish n) r
    → ((status : Status) (phase : Phase) (p : Parser) (rest : Bytes)
        → of_webvtt phase ≡ true
        → Shape finish phase p
        → measure phase p rest < n
        → Ends (ExitOk finish m) (more status p rest))
    → Ends (ExitOk finish m) (next_exit more r)
next-Ends finish n m more (done (again status p rest)) le (phase, e, shape, less) later =
    later status phase p rest e shape less
next-Ends finish n m more (done (leave status p rest)) le (inl refused) later = inl refused
next-Ends finish n m more (done (leave status p rest)) le (inr (phase, why, shape, less)) later =
    inr (phase, why, shape, omega arith)
next-Ends finish n m more fault le ends later = ends
next-Ends finish n m more too_long le ends later = tt
next-Ends finish n m more out_of_fuel le ends later = ends

wider :
    (finish : Bool) (n m : ℕ) (r : Run Exit)
    → n ≤ m
    → Ends (ExitOk finish n) r
    → Ends (ExitOk finish m) r
wider finish n m (done (status, p, rest)) le (inl refused) = inl refused
wider finish n m (done (status, p, rest)) le (inr (phase, why, shape, less)) =
    inr (phase, why, shape, omega arith)
wider finish n m fault le ends = ends
wider finish n m too_long le ends = tt
wider finish n m out_of_fuel le ends = ends

pub loop-Ends :
    (fuel : ℕ) (finish : Bool) (h : Host) (status : Status) (phase : Phase) (p : Parser)
    (rest : Bytes)
    → of_webvtt phase ≡ true
    → Shape finish phase p
    → measure phase p rest < fuel
    → Ends (ExitOk finish (measure phase p rest + 1)) (webvtt_loop fuel h finish status p rest)
unfolding webvtt_loop
loop-Ends zero finish h status phase p rest e shape less = absurd (omega arith)
loop-Ends (suc fuel) finish h status phase p [] e shape less =
    inr (phase, inl refl, shape, omega arith)
loop-Ends (suc fuel) finish h status phase p (c ∷ rest) e shape less =
    let n = measure phase p (c ∷ rest) in
    next-Ends finish n (n + 1) (webvtt_loop fuel h finish)
      (webvtt_round h finish status p (c ∷ rest)) (omega arith)
      (round-Shape finish h status phase p (c ∷ rest) e shape (omega arith))
      (λ status' phase' p' rest' e' shape' less'.
        wider finish (measure phase' p' rest' + 1) (n + 1)
          (webvtt_loop fuel h finish status' p' rest') (omega (arith, less'))
          (loop-Ends fuel finish h status' phase' p' rest' e' shape' (omega (arith, less, less'))))

measure_small : (phase : Phase) (s : LexState) → rank phase s ≤ 3
measure_small phase s = ground (arith, from_start_le s)

-- Let the parser be as `Shape` says in a phase of `parse_webvtt` behind the header of a file. Then on
-- any text, last chunk or not, the loop ends with the fuel that it has, without a write outside the token
-- or the stack and without a read of a union member that was not written; the string routines that it calls end as
-- well, without a write outside their blocks. A call of one for more than 2 ^ 31 bytes (`or_too_long`) is
-- not followed further. The loop ends with a failure and three frames at most, or at the end of the text in one of the phases, or
-- for the text of a cue; then the parser is again as `Shape` says, and no more text is left than there
-- was.
pub parse_webvtt-Ends :
    (h : Host) (phase : Phase) (p : Parser) (rest : Bytes)
    → of_webvtt phase ≡ true
    → Shape p.finished phase p
    → Ends (ExitOk p.finished (4 * length rest + 4)) (parse_webvtt h p.finished p rest)
unfolding parse_webvtt
parse_webvtt-Ends h phase p rest e shape =
    let small = measure_small phase p.lexer.tstate in
    wider p.finished (measure phase p rest + 1) (4 * length rest + 4)
      (webvtt_loop (6 * length rest + 6) h p.finished success p rest) (omega (arith, small))
      (loop-Ends (6 * length rest + 6) p.finished h success phase p rest e shape
        (omega (arith, small)))
