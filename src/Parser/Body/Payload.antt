-- ===== src/Parser/Body/Payload.antt =====
-- `webvtt_read_cuetext` (src/libwebvtt/parser.c): its loop over the lines of a cue's text ends.
use webvtt.Base.{
  none, length-take_le, ℕ, ◌+◌, ◌-◌, ◌*◌, ◌≤◌, ◌<◌, ◌≡◌, refl, sym, subst, ◌⊎◌, inl, inr, Bool,
  Bool-cases, true, false, some, [], ◌∷◌, Bytes, arith, length, take, if◌then◌else◌, ◌==◌,
}
use webvtt.Cue.{Cue}
use webvtt.Lexer.{l_start, Lexer, Lexed, lex_newline}
use webvtt.Lexer.Progress.{Ended}
use webvtt.Parser.{Host, Parser, done}
use webvtt.Parser.Body.{Ends, Ends-bind, placed, stack_at, HasCue, HasText, IsCueFrame, TextMode}
use webvtt.Parser.Body.Buffer.{Unbegun, Returned, IsMarked, PartBuffer, Kept}
use webvtt.Parser.Body.Part.{reading, PartOk, read_part_ok}
use webvtt.Parser.CueLine.{find_bytes, separator}
use webvtt.Parser.Payload.{
  Reading, read_part, take_line, line_of_next, end_of_line, read_end, read_round,
}
use webvtt.Parser.Stack.{t_body, t_cueread, v_none, v_text, Value, cue_value, Frame, do_push}
use webvtt.Parser.Webvtt.{is_newline}
use webvtt.StringData.{StringData}
use webvtt.StringData.Lines.{IsEnd}
use webvtt.StringData.Bounds.{IsSound}

-- The frames of a cue whose text is due, and those of one whose text was ended by the times of the next.
abbrev pub TextFrames : (ℕ → Frame) → Type 0
TextFrames f = ((f 0).state ≡ t_body) × IsCueFrame (f 1) × ((f 2).type ≡ v_none)

abbrev pub NextFrames : (ℕ → Frame) → Bool → Type 0
NextFrames f popped =
    ((f 0).state ≡ t_body)
    × IsCueFrame (f 1)
    × ((f 2).state ≡ t_cueread)
    × ((f 2).type ≡ v_text)
    × HasText (f 2).v
    × (popped ≡ true)

abbrev pub Fresh : Lexer → Type 0
Fresh l = (l.tstate ≡ l_start) × (length l.token ≡ 0)

-- The lexer is at the beginning of a token, and the buffer of lines is given up.
abbrev pub Released : Parser → Type 0
Released p = Fresh p.lexer × (p.line_buffer ≡ none)

-- Less of the text is left than `n` tells, or nothing.
abbrev pub Less : ℕ → Bytes → Type 0
Less n rest = (rest ≡ []) ⊎ (2 * length rest < n)

-- Behind a round: the text is over, a line of it was taken, or the chunk is over. Less is left than `n`.
abbrev pub RoundOk : Bool → ℕ → Reading → Type 0
RoundOk finish n r =
    (g : ℕ → Frame) × (r.parser.stack ≡ stack_at g 1)
    × TextMode finish r.parser
    × Less n r.rest
    × (((r.finished ≡ true) × Released r.parser × (TextFrames g ⊎ NextFrames g r.parser.popped))
        ⊎ ((r.finished ≡ false) × Released r.parser × TextFrames g × (r.flags ≡ false))
        ⊎ ((r.finished ≡ false) × TextFrames g × (r.rest ≡ []) × (finish ≡ false) × Kept r.parser))

-- A line without its mark.
unmarked-IsSound :
    (str : StringData)
    → IsSound str
    → IsSound (record str { text = take (length str.text - 1) str.text; terminated = true })
unmarked-IsSound str sound = record {
  fits = omega (arith, length-take_le (length str.text - 1) str.text, sound.fits);
  terminated = refl;
}

take_line_ok :
    (finish : Bool) (p : Parser) (f : ℕ → Frame) (rest : Bytes) (n : ℕ) (r : Reading)
    (str : StringData) (cue : Cue)
    → TextFrames f
    → Fresh p.lexer
    → TextMode finish p
    → r.finished ≡ false
    → (r.rest ≡ []) ⊎ (2 * length r.rest < n)
    → IsSound str
    → Ends (RoundOk finish n) (take_line r (placed p f 1) str cue)
unfolding take_line line_of_next do_push
take_line_ok finish p f rest n r str cue frames fresh going going_on less sound =
    let text = take (length str.text - 1) str.text in
    elim (Bool-cases (length text == 0)) [
      | inl empty ↦ rw empty (f, refl, going, less, inl (refl, (fresh, refl), inl frames))
      | inr filled ↦ elim (Bool-cases (find_bytes text separator)) [
        | inl times ↦
            rw (filled, times)
              (
                _,
                refl,
                going,
                less,
                inl (
                  refl,
                  (fresh, refl),
                  inr (frames.0, frames.1, refl, refl, unmarked-IsSound str sound, refl),
                ),
              )
        | inr other ↦
            rw (filled, other)
              (
                _,
                refl,
                going,
                less,
                inr (
                    inl (
                      going_on,
                      (fresh, refl),
                      (frames.0, (frames.1.0, frames.1.1, tt), frames.2),
                      refl,
                    )),
              )
      ]
    ]

-- With a line in the buffer, at its end.
end_of_line_ok :
    (finish : Bool) (p : Parser) (f : ℕ → Frame) (s rest : Bytes) (flags : Bool) (n begun k : ℕ)
    (l : Lexed × Bool) (str : StringData) (v : Value)
    → TextFrames f
    → TextMode finish p
    → HasCue v
    → 2 * (length rest + begun) < n + 2
    → Ended finish rest begun k l
    → IsMarked str
    → k ≤ 2
    → (reading p f s flags).parser.line_buffer ≡ some str
    → Ends (RoundOk finish n) (end_of_line (reading p f s flags) l v (some str))
unfolding end_of_line is_newline
end_of_line_ok finish p f s rest flags n begun k (l, back) str (cue_value cue) frames going h less
      (whole, inl (token, start, short, left)) sound small buffer =
    rw (whole, token)
      (take_line_ok finish
        (record p { lexer = record (l.lexer) { line = l.lexer.line + 1; token = [] } }) f l.rest n
        (record (reading p f s flags) { rest = l.rest }) str cue frames (start, refl) going refl
        (elim left [ inl fewer ↦ inr (omega (arith, fewer)) | inr none_left ↦ inl none_left ])
        sound.0)
end_of_line_ok finish p f s rest flags n begun k (l, back) str (cue_value cue) frames going h less
      (whole, inr (token, none_left, state, one, more)) marked small buffer =
    rw (whole, token)
      (
        f,
        refl,
        going,
        inl none_left,
        inr (
            inr (
              refl,
              frames,
              none_left,
              more,
              rw buffer (
                marked.1,
                marked.0,
                inr (marked.2, (state, omega (arith, one), omega (arith, one))),
              ),
            )),
      )
end_of_line_ok finish p f s rest flags n begun k l str v frames going h less ended sound small
      buffer =
    absurd h

-- The end of a line in the buffer is read, where it was begun or where it begins.
pub read_end_ok :
    (finish : Bool) (p : Parser) (f : ℕ → Frame) (rest : Bytes) (n begun k : ℕ) (str : StringData)
    → TextFrames f
    → TextMode finish p
    → p.line_buffer ≡ some str
    → IsMarked str
    → k ≤ 2
    → 2 * (length rest + begun) < n + 2
    → ((l : Lexed × Bool) × (lex_newline finish rest p.lexer ≡ some l)
        × Ended finish rest begun k l)
    → Ends (RoundOk finish n) (read_end finish (reading p f rest true))
unfolding read_end
read_end_ok finish p f rest n begun k str frames going buffer sound small less (l, found, ended) =
    rw found (
      subst (λ b. Ends (RoundOk finish n) (end_of_line (reading p f rest true) l (f 1).v b))
        (sym buffer)
        (end_of_line_ok finish p f rest rest true n begun k l str (f 1).v frames going frames.1.2
          less ended sound small buffer))

-- What `webvtt_lex_newline` finds at the end of a line.
abbrev pub Finds : Bool → Parser → ℕ → ℕ → Type 0
Finds finish p begun k =
    (rest : Bytes)
    → ((rest ≡ []) × (finish ≡ true)) ⊎ ((c : ℕ) × (u : Bytes) × (rest ≡ c ∷ u) × IsEnd c)
    → (l : Lexed × Bool) × (lex_newline finish rest p.lexer ≡ some l) × Ended finish rest begun k l

pub read_round_ok :
    (h : Host) (finish : Bool) (p : Parser) (f : ℕ → Frame) (s : Bytes) (n begun k : ℕ)
    → TextFrames f
    → TextMode finish p
    → PartBuffer p.line_buffer
    → Unbegun p.lexer ⊎ Returned p.lexer
    → 0 < length s
    → k ≤ 2
    → 2 * (length s + begun) < n + 2
    → Finds finish p begun k
    → Ends (RoundOk finish n) (read_round h finish (reading p f s false))
unfolding read_round
read_round_ok h finish p f s n begun k frames going held begins some_left small less finds =
    Ends-bind (PartOk finish p f s) (RoundOk finish n) (read_part h finish (reading p f s false)) _
      (read_part_ok h finish p f s held some_left) (λ q ok. behind_part q ok)
  where
    behind_part :
        (q : Reading)
        → PartOk finish p f s q
        → Ends (RoundOk finish n) (if q.flags then read_end finish q else done q)
    behind_part q (str, t, rest, flags, e, fewer, inl (ended, marked, end)) =
        rw (e, ended)
          (read_end_ok finish (record p { line_buffer = some str; truncate = t }) f rest n begun k
            str frames going refl marked small (omega arith) (finds rest end))
    behind_part q (str, t, rest, flags, e, fewer, inr (short, part, none_left, last)) =
        rw (e, short)
          (
            f,
            refl,
            going,
            inl none_left,
            inr (inr (refl, frames, none_left, last, (part.1, part.0, inl (part.2, begins)))),
          )
