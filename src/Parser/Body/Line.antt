-- ===== src/Parser/Body/Line.antt =====
-- The line of a cue in `parse_webvtt` (src/libwebvtt/parser.c): the state T_CUEREAD.
use webvtt.Base.{
  ℕ, ◌+◌, ◌*◌, ◌≤◌, ◌<◌, ◌≡◌, refl, sym, ap, ◌∙◌, ◌⊎◌, inl, inr, Bool, Bool-cases, true, false,
  none, some, [], ◌∷◌, Bytes, arith, length, length-append, not, ◌||◌, ◌==◌,
}
use webvtt.Lexer.{l_start, Lexed, lex_newline}
use webvtt.Lexer.Progress.{from_start, Ended, lex_newline-Begun, lex_newline-Start}
use webvtt.Parser.{Host, header, Parser}
use webvtt.Parser.Body.{
  Ends, Ends-sized, header_positive, placed, stack_at, in_line, has_line, Holding, Lexing, Going,
  measure,
}
use webvtt.Parser.Body.CueLine.{has_text}
use webvtt.Parser.Stack.{text_value, Frame, set_frame}
use webvtt.Parser.Webvtt.{
  is_newline, Read, line_done, go_on, newline_read, line_end, line_text, read_line, cue_read,
}
use webvtt.Status.{Status, success}
use webvtt.StringData.{StringData, split_line, getline}
use webvtt.StringData.Lines.{IsEnd, AtEnd, split_line_lem, getline_rest, getline-IsSound}
use webvtt.StringData.Bounds.{IsSound}
use webvtt.StringData.Replace.{string_replace_all}
use webvtt.StringData.Replace.Nul.{nul, replacement, string_replace_all-nul}

-- The line is in the frame above the cue, or the chunk ends in the line.
abbrev pub ReadOk : Bool → ℕ → Read → Type 0
ReadOk finish n (line_done status q rest) =
    (g : ℕ → Frame) × (q.stack ≡ stack_at g 1)
    × Holding has_line g q.popped
    × Lexing has_line 0 q.lexer
    × Going finish true q
    × (4 * length rest + 2 < n)
ReadOk finish n (go_on status q rest) =
    (rest ≡ [])
    × (finish ≡ false)
    × ((g : ℕ → Frame) × (q.stack ≡ stack_at g 2)
        × Holding in_line g q.popped
        × Lexing in_line (g 2).flags q.lexer
        × Going finish true q)

line_end_ok :
    (finish : Bool) (status : Status) (p : Parser) (f : ℕ → Frame) (rest : Bytes) (n begun : ℕ)
    (r : Lexed × Bool)
    → Holding in_line f p.popped
    → (f 2).flags ≡ 1
    → Going finish true p
    → 4 * (length rest + begun) < n + 2
    → 2 < n
    → Ended finish rest begun 0 r
    → Ends (ReadOk finish n) (newline_read status (placed p f 2) r)
unfolding newline_read is_newline
line_end_ok finish status p f rest n begun (r, back) holding flags going less two
      (whole, inl (token, start, short, inl fewer)) =
    rw (whole, token)
      (
        f,
        refl,
        (holding.0, holding.1, holding.2, holding.3, refl),
        (start, short),
        going,
        omega (arith, fewer),
      )
line_end_ok finish status p f rest n begun (r, back) holding flags going less two
      (whole, inl (token, start, short, inr none_left)) =
    rw (whole, token, none_left)
      (
        f,
        refl,
        (holding.0, holding.1, holding.2, holding.3, refl),
        (start, short),
        going,
        omega arith,
      )
line_end_ok finish status p f rest n begun (r, back) holding flags going less two
      (whole, inr (token, none_left, state, one, more)) =
    rw (whole, token) (none_left, more, (f, refl, holding, inr (flags, state, one), going))

-- The rest of a chunk behind a line that is over.
pub at_end :
    (rest : Bytes) (finish : Bool)
    → AtEnd rest
    → (not (length rest == 0) || finish) ≡ true
    → ((rest ≡ []) × (finish ≡ true)) ⊎ ((c : ℕ) × (t : Bytes) × (rest ≡ c ∷ t) × IsEnd c)
at_end rest finish (inl e) over = inl (e, ground arith)
at_end rest finish (inr e) over = inr e

pub chunk_over :
    (rest : Bytes) (finish : Bool)
    → (not (length rest == 0) || finish) ≡ false
    → (rest ≡ []) × (finish ≡ false)
chunk_over [] finish e = (refl, ground arith)
chunk_over (c ∷ rest) finish e = absurd (ground arith)

-- The frame of the line holds what was read of it.
abbrev with_line : (ℕ → Frame) → StringData → ℕ → ℕ → Frame
with_line f str flags = set_frame f 2 (record (f 2) { v = text_value str; flags = flags })

pub line_left : (s : Bytes) → length (split_line s).1 ≤ length s
line_left s =
    let (parts, inner, end) = split_line_lem s in
    omega (arith, ap (λ t. length t) parts, length-append (split_line s).0 (split_line s).1)

read_line_ok :
    (h : Host) (finish : Bool) (status : Status) (p : Parser) (f : ℕ → Frame) (text : StringData)
    (rest : Bytes) (n : ℕ)
    → Holding in_line f p.popped
    → (p.lexer.tstate ≡ l_start) × (length p.lexer.token ≡ 0)
    → Going finish true p
    → 0 < length rest
    → 4 * length rest ≤ n
    → IsSound text
    → Ends (ReadOk finish n) (read_line h finish status (placed p f 2) text rest)
unfolding read_line line_text line_end
read_line_ok h finish status p f text rest n holding (start, none_yet) going some_left less sound =
    Ends-sized (ReadOk finish n) _ (getline (header h) text rest none finish) _ (λ small.
      let (l, e, sound', either) =
        getline-IsSound (header h) (header_positive h) text rest none finish sound small in
      let (left, over) = getline_rest (header h) text rest none finish l e in
      (
        l,
        e,
        elim (Bool-cases l.ended) [
          | inl ends ↦ rw ends (
              Ends-sized (ReadOk finish n) _ (string_replace_all (header h) l.str nul replacement) _
                (λ small'.
                  let (str, e', text', sound'') =
                    string_replace_all-nul (header h) (header_positive h) l.str sound' small' in
                  let (parts, inner, end) = split_line_lem rest in
                  let (r, found, ended) =
                    lex_newline-Start finish l.rest p.lexer 0
                      (at_end l.rest finish (rw left end) (rw left (sym over ∙ ends))) start
                      none_yet (omega arith) in
                  let taken : lex_newline p.finished l.rest p.lexer ≡ some r = rw going.1 found in
                  (
                    str,
                    e',
                    rw taken (
                        line_end_ok finish success p (with_line f str 1) l.rest n 0 r
                          (holding.0, holding.1, holding.2, sound'') refl going
                          (rw left (omega (arith, line_left rest))) (omega arith) ended),
                  )))
          | inr waits ↦
              let (none_left, last) = chunk_over l.rest finish (rw left (sym over ∙ waits)) in
              rw waits (
                none_left,
                last,
                (
                  with_line f l.str 0,
                  refl,
                  (holding.0, holding.1, holding.2, sound'),
                  inl (refl, start, none_yet),
                  going,
                ),
              )
        ],
      ))

-- A line is read, or its end after a carriage return that ended a chunk.
pub cue_read_ok :
    (h : Host) (finish : Bool) (status : Status) (p : Parser) (f : ℕ → Frame) (rest : Bytes) (n : ℕ)
    → Holding in_line f p.popped
    → Lexing in_line (f 2).flags p.lexer
    → Going finish true p
    → 0 < length rest
    → measure in_line p rest ≤ n
    → Ends (ReadOk finish n) (cue_read h finish status (placed p f 2) (f 2).v rest)
unfolding cue_read line_end
cue_read_ok h finish status p f rest n holding (inl (flags, start, none_yet)) going some_left less =
    let (text, is_text, sound) = has_text (f 2).v holding.3 in
    rw (is_text, flags)
      (read_line_ok h finish status p f text rest n holding (start, none_yet) going some_left
        (omega (arith, less)) sound)
cue_read_ok h finish status p f rest n holding (inr (flags, state, one)) going some_left less =
    let (text, is_text, sound) = has_text (f 2).v holding.3 in
    let (r, found, ended) = lex_newline-Begun finish rest p.lexer 0 state one (omega arith) in
    let taken : lex_newline p.finished rest p.lexer ≡ some r = rw going.1 found in
    let bound : 4 * length rest + 3 ≤ n = omega (arith, less, ap (λ s. from_start s) state) in
    rw (is_text, flags, taken)
      (line_end_ok finish status p f rest n 1 r holding flags going (omega arith) (omega arith)
        ended)
