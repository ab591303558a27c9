-- ===== src/Parser/Body/Token.antt =====
-- A token and the switch on the state, in `parse_webvtt` (src/libwebvtt/parser.c), behind the header
-- of a file.
use webvtt.Base.{ℕ, ◌+◌, ◌*◌, ◌<◌, ◌≡◌, refl, inl, inr, Bool, true, false, Bytes, arith, length}
use webvtt.Lexer.{LexToken, newline, l_start, Lexer, Lexed}
use webvtt.Lexer.Progress.{Leads}
use webvtt.Lexer.Safe.{IsReady}
use webvtt.Parser.{Host, Parser}
use webvtt.Parser.Body.{
  Ends, placed, Phase, depth, in_body, in_eol, stuck, Holding, Going, Shape, NextOk,
}
use webvtt.Parser.Body.CueLine.{on_cue_stuck}
use webvtt.Parser.Body.Push.{on_body-Ends, on_eol-Ends}
use webvtt.Parser.Stack.{Frame}
use webvtt.Parser.Webvtt.{on_state, token_of, token_read}
use webvtt.Status.{Status}

abbrev pub lexed : Parser → Lexer → (ℕ → Frame) → Phase → Parser
lexed p l f phase = placed (record p { lexer = l }) f (depth phase)

-- What the switch does with a token of a phase.
abbrev pub Switch : Bool → Host → ℕ → ℕ → Status → Parser → (ℕ → Frame) → Phase → ℕ → Type 0
Switch finish h line column status p f phase n =
    (token : LexToken) (l : Lexer) (rest : Bytes)
    → l.tstate ≡ l_start
    → 4 * length rest < n
    → (token ≡ newline → 4 * length rest + 1 < n)
    → Ends (NextOk finish n)
        (on_state 2 h (f (depth phase)).state token line column status (lexed p l f phase) rest)

pub body-Switch :
    (finish : Bool) (h : Host) (line column : ℕ) (status : Status) (p : Parser) (f : ℕ → Frame)
    (n : ℕ)
    → Holding in_body f p.popped
    → Going finish true p
    → Switch finish h line column status p f in_body n
unfolding on_state
body-Switch finish h line column status p f n holding going token l rest start less line_end =
    rw (holding.0) (
      on_body-Ends h token line column status (record p { lexer = l }) rest f n holding going start
        less line_end)

pub eol-Switch :
    (finish : Bool) (h : Host) (line column : ℕ) (status : Status) (p : Parser) (f : ℕ → Frame)
    (n : ℕ)
    → Holding in_eol f p.popped
    → Going finish true p
    → Switch finish h line column status p f in_eol n
eol-Switch finish h line column status p f n holding going token l rest start less line_end =
    rw (holding.1) (
      on_eol-Ends h token line column status (record p { lexer = l }) rest f n holding going start
        less line_end)

pub stuck-Switch :
    (finish : Bool) (h : Host) (line column : ℕ) (status : Status) (p : Parser) (f : ℕ → Frame)
    (n : ℕ)
    → Holding stuck f p.popped
    → Switch finish h line column status p f stuck n
unfolding on_state
stuck-Switch finish h line column status p f n holding token l rest start less line_end =
    rw (holding.1.0) (on_cue_stuck finish h status (record p { lexer = l }) rest f n holding.2)

pub token_read-Ends :
    (finish : Bool) (h : Host) (line column : ℕ) (status : Status) (p : Parser) (f : ℕ → Frame)
    (phase : Phase) (n begun : ℕ) (s : Bytes) (r : Lexed)
    → Switch finish h line column status p f phase n
    → ((l : Lexer) → IsReady l → Shape finish phase (lexed p l f phase))
    → 4 * length s + begun < n
    → Leads finish s begun r
    → Ends (NextOk finish n) (token_read h finish line column status (placed p f (depth phase)) r)
unfolding token_read token_of
token_read-Ends true h line column status p f phase n begun s r switch shape less
      (inl (waits, none_left, ready, start)) =
    rw waits
      (switch _ r.lexer r.rest (start refl) (rw none_left (omega arith)) (λ e. absurd (cc e)))
token_read-Ends false h line column status p f phase n begun s r switch shape less
      (inl (waits, none_left, ready, start)) =
    rw (waits, none_left) (inr (phase, inl refl, shape r.lexer ready, omega arith))
token_read-Ends finish h line column status p f phase n begun s r switch shape less
      (inr (whole, start, shorter, line_end)) =
    rw whole (switch r.token r.lexer r.rest start (omega arith) (λ e. omega (arith, line_end e)))
