-- ===== src/Parser/Comment.antt =====
-- The comment behind the tag of a file (`parse_webvtt` in src/libwebvtt/parser.c): where it leads.
use webvtt.Base.{ℕ, ◌≡◌, refl, ap, false, Bytes}
use webvtt.Lexer.{LexToken, bad_token, bom, newline, whitespace, Lexer}
use webvtt.Parser.{Host, Parser, done}
use webvtt.Parser.Body.{placed, stack_at}
use webvtt.Parser.Body.Push.{pushed}
use webvtt.Parser.CueLine.{reported, push0}
use webvtt.Parser.Stack.{t_initial, t_eol, v_integer, number, Frame, top_frame, set_frame, do_push}
use webvtt.Parser.Webvtt.{
  on_initial, on_tagcomment, on_state, popped_back, reset_token, again, leave,
}
use webvtt.Status.{Status, parse_error, malformed_tag}

-- A token that is not the beginning of a file, nor a line end.
pub data IsCueToken : LexToken → Type 0 where
  bad : IsCueToken bad_token
  mark : IsCueToken bom
  blanks : IsCueToken whitespace

-- The frames of a comment: the first, the tag's, the comment's.
abbrev pub IsComment : (ℕ → Frame) → Type 0
IsComment f = ((f 0).state ≡ t_initial) × ((f 2).back ≡ 2)

-- Behind the line end of the comment, at a later chunk or not.
abbrev AtMalformed : Host → Parser → Type 0
AtMalformed h q =
    (token : LexToken) (line column : ℕ) (status : Status) (l : Lexer) (rest : Bytes)
    → IsCueToken token
    → (p : Parser) × (on_state 2 h (top_frame q.stack).state token line column status
          (record q { lexer = l }) rest
        ≡ done (leave parse_error (reported malformed_tag 1 1 p) rest))

abbrev behind : (ℕ → Frame) → Frame → ℕ → Frame
behind f top = set_frame (set_frame f 0 (record (f 0) { back = 0 })) 1 top

-- The frame that counts the line ends.
abbrev counter : ℕ → ℕ → Frame
counter line column = pushed newline t_eol (number 1) v_integer 1 line column

abbrev lines_behind : Parser → (ℕ → Frame) → ℕ → ℕ → Lexer → Parser
lines_behind p f line column l = record (placed p (behind f (counter line column)) 1) { lexer = l }

malformed :
    (h : Host) (p : Parser) (f : ℕ → Frame) (line column : ℕ)
    → (f 0).state ≡ t_initial
    → AtMalformed h (placed p (behind f (counter line column)) 1)
unfolding on_state on_initial
malformed h p f x y first token line column status l rest bad = (
  _,
  ap
      (λ state.
        on_state 1 h state bad_token line column status (popped_back (lines_behind p f x y l)) rest)
      first,
)
malformed h p f x y first token line column status l rest mark = (
  _,
  ap
      (λ state.
        on_state 1 h state bom line column status (popped_back (lines_behind p f x y l)) rest)
      first,
)
malformed h p f x y first token line column status l rest blanks = (
  _,
  ap
      (λ state.
        on_state 1 h state whitespace line column status (popped_back (lines_behind p f x y l))
          rest)
      first,
)

-- Let the parser be in the comment behind the tag of a file, with the first frame in T_INITIAL as it was
-- when the file began, and let a token be neither the tag nor a line end. Then the line end of the
-- comment leads on to a parser for which that token, with whatever lexer and text, ends the file with
-- WEBVTT_PARSE_ERROR and a report of WEBVTT_MALFORMED_TAG at line 1, column 1.
pub comment_then_malformed :
    (h : Host) (line column : ℕ) (status : Status) (p : Parser) (rest : Bytes) (f : ℕ → Frame)
    (token : LexToken) (line' column' : ℕ) (status' : Status) (l : Lexer) (rest' : Bytes)
    → p.stack ≡ stack_at f 2
    → IsComment f
    → IsCueToken token
    → (q : Parser) × (p' : Parser) × (on_tagcomment newline line column status p rest
        ≡ done (again status q rest))
      × (on_state 2 h
            (top_frame q.stack).state
            token
            line'
            column'
            status'
            (record q { lexer = l })
            rest'
          ≡ done (leave parse_error (reported malformed_tag 1 1 p') rest'))
unfolding on_tagcomment push0 do_push
comment_then_malformed h line column status p rest f token line' column' status' l rest' e
      (first, back) other =
    let base = reset_token (record p { popped = false }) in
    let (p', ends) =
      malformed h base f line column first token line' column' status' l rest' other in
    (placed base (behind f (counter line column)) 1, p', rw (e, back) refl, ends)
