-- ===== src/Parser/Body.antt =====
-- The parser behind the header of a file (src/libwebvtt/parser.c): what its stack, its union members
-- and its lexer hold between two rounds.
pub mod Push
pub mod CueLine
pub mod Token
pub mod Line
pub mod Loop
pub mod Buffer
pub mod Part
pub mod Payload
pub mod Text
pub mod CueText
pub mod Chunk
use webvtt.Base.{
  inl, inr, Bool-cases, leb, ◌^◌, arith, if◌then◌else◌, ℕ, ◌+◌, ◌*◌, ◌≤◌, ◌<◌, ◌≡◌, refl, ◌⊎◌, Bool,
  true, false, Option, none, some, [], Bytes, length,
}
use webvtt.Lexer.{LexState, l_start, l_newline0, Lexer}
use webvtt.Lexer.Progress.{from_start}
use webvtt.Lexer.Safe.{IsReady}
use webvtt.Parser.{
  Host, header, Mode, m_webvtt, Parser, Run, done, fault, too_long, out_of_fuel, ◌>>=◌, or_fault,
  or_too_long,
}
use webvtt.Parser.Stack.{
  ParseState, t_body, t_eol, t_cue, t_cueread, ValueType, v_none, v_cue, Value, null, cue_value,
  text_value, number, Frame, StateStack,
}
use webvtt.Parser.Webvtt.{is_webvtt, Next, again, leave}
use webvtt.Status.{Status, failed}
use webvtt.StringData.Bounds.{IsSound}

-- The run ends without a fault, and its result, if no call of a string routine is too long, is as `P`
-- says.
abbrev pub Ends {ℓ} : {A : Type ℓ} → (A → Type 0) → Run A → Type 0
Ends P (done a) = P a
Ends P fault = ⊥
Ends P too_long = Unit
Ends P out_of_fuel = ⊥

pub Ends-bind {ℓ κ} :
    {A : Type ℓ} {B : Type κ} (P : A → Type 0) (Q : B → Type 0) (r : Run A) (f : A → Run B)
    → Ends P r
    → ((a : A) → P a → Ends Q (f a))
    → Ends Q (r >>= f)
Ends-bind P Q (done a) f h g = g a h
Ends-bind P Q fault f h g = absurd h
Ends-bind P Q too_long f h g = tt
Ends-bind P Q out_of_fuel f h g = absurd h

-- A string routine that has a result wherever its size is small enough.
pub Ends-sized {ℓ κ} :
    {A : Type ℓ} {B : Type κ} (Q : B → Type 0) (size : ℕ) (o : Option A) (f : A → Run B)
    → (size ≤ 2 ^ 31 → (a : A) × (o ≡ some a) × Ends Q (f a))
    → Ends Q (or_too_long size o >>= f)
Ends-sized Q size o f g = elim (Bool-cases (leb size (2 ^ 31))) [
  | inl small ↦ let (a, e, ends) = g (ground arith) in rw (small, e) ends
  | inr large ↦ rw large tt
]

pub header_positive : (h : Host) → 0 < header h
header_positive h = ground arith

pub Ends-done {ℓ κ} :
    {A : Type ℓ} {B : Type κ} (Q : B → Type 0) (r : Run A) (a : A) (f : A → Run B)
    → r ≡ done a
    → Ends Q (f a)
    → Ends Q (r >>= f)
Ends-done Q r a f e g = rw e g

-- The array of frames has not grown.
abbrev pub stack_at : (ℕ → Frame) → ℕ → StateStack
stack_at frames top = record { frames = frames; top = top; stack_alloc = 0x100; capacity = 0x100 }

abbrev pub placed : Parser → (ℕ → Frame) → ℕ → Parser
placed p frames top = record p { stack = stack_at frames top }

-- A frame that counts line ends has a number.
abbrev pub HasCount : Value → Type 0
HasCount null = Unit
HasCount (number n) = Unit
HasCount _ = ⊥

abbrev pub Counted : ParseState → Value → Type 0
Counted t_eol v = HasCount v
Counted _ v = Unit

abbrev pub HasCue : Value → Type 0
HasCue (cue_value cue) = Unit
HasCue _ = ⊥

-- A line is a string as the operations leave it.
abbrev pub HasText : Value → Type 0
HasText (text_value text) = IsSound text
HasText _ = ⊥

abbrev pub IsCueFrame : Frame → Type 0
IsCueFrame f = (f.state ≡ t_cue) × (f.type ≡ v_cue) × HasCue f.v

-- Where the parser is: between cues, in the line ends behind the header, in a line of a cue, behind
-- one, behind one that was refused, or in the text of a cue.
pub data Phase : Type 0 where
  in_body in_eol in_line has_line stuck in_text : Phase

abbrev pub depth : Phase → ℕ
depth in_body = 0
depth in_line = 2
depth _ = 1

-- What the frames hold, and `popped`.
abbrev pub Holding : Phase → (ℕ → Frame) → Bool → Type 0
Holding in_body f popped = ((f 0).state ≡ t_body) × Counted (f 1).state (f 1).v
Holding in_eol f popped =
    ((f 0).state ≡ t_body) × ((f 1).state ≡ t_eol) × ((f 1).back ≡ 1) × HasCount (f 1).v
Holding in_line f popped =
    ((f 0).state ≡ t_body) × IsCueFrame (f 1) × ((f 2).state ≡ t_cueread) × HasText (f 2).v
Holding has_line f popped =
    ((f 0).state ≡ t_body)
    × IsCueFrame (f 1)
    × ((f 2).state ≡ t_cueread)
    × HasText (f 2).v
    × (popped ≡ true)
Holding stuck f popped = ((f 0).state ≡ t_body) × IsCueFrame (f 1) × (popped ≡ false)
Holding in_text f popped = ((f 0).state ≡ t_body) × IsCueFrame (f 1) × ((f 2).type ≡ v_none)

-- At the beginning of a line, or behind its carriage return; the flags of the frame tell which.
abbrev pub AtLine : ℕ → Lexer → Type 0
AtLine flags l =
    ((flags ≡ 0) × (l.tstate ≡ l_start) × (length l.token ≡ 0))
    ⊎ ((flags ≡ 1) × (l.tstate ≡ l_newline0) × (length l.token ≡ 1))

abbrev pub Lexing : Phase → ℕ → Lexer → Type 0
Lexing in_line flags l = AtLine flags l
Lexing has_line flags l = (l.tstate ≡ l_start) × (length l.token ≤ 2)
Lexing in_text flags l = (l.tstate ≡ l_start) × (length l.token ≤ 2)
Lexing _ flags l = IsReady l

abbrev pub of_webvtt : Phase → Bool
of_webvtt in_text = false
of_webvtt _ = true

-- Whether the mode is that of `parse_webvtt`, and whether the chunk is the last one; the buffer of
-- lines is not in use.
abbrev pub Going : Bool → Bool → Parser → Type 0
Going finish webvtt p = (is_webvtt p.mode ≡ webvtt) × (p.finished ≡ finish) × (p.line_buffer ≡ none)

-- In the text of a cue.
abbrev pub TextMode : Bool → Parser → Type 0
TextMode finish p = (is_webvtt p.mode ≡ false) × (p.finished ≡ finish)

pub record Shape (finish : Bool) (phase : Phase) (p : Parser) : Type 0 where
  pub frames : ℕ → Frame
  pub stack : p.stack ≡ stack_at frames (depth phase)
  pub holding : Holding phase frames p.popped
  pub lexing : Lexing phase (frames (depth phase)).flags p.lexer
  pub mode : Going finish (of_webvtt phase) p

-- What decreases where no byte is taken.
abbrev pub rank : Phase → LexState → ℕ
rank in_body s = 1 + from_start s
rank in_eol s = 1 + from_start s
rank in_line s = 3 * from_start s
rank has_line s = 2
rank stuck s = 1 + from_start s
rank in_text s = 0

abbrev pub measure : Phase → Parser → Bytes → ℕ
measure phase p rest = 4 * length rest + rank phase p.lexer.tstate

-- A routine leaves with a failure, at the end of the chunk, or for the text of a cue.
abbrev pub LeftOk : Bool → ℕ → Status → Parser → Bytes → Type 0
LeftOk finish n status p rest =
    ((failed status ≡ true) × (p.stack.top ≤ 2))
    ⊎ ((phase : Phase) × ((rest ≡ []) ⊎ (phase ≡ in_text))
        × Shape finish phase p
        × (4 * length rest < n))

abbrev pub NextOk : Bool → ℕ → Next → Type 0
NextOk finish n (again status p rest) =
    (phase : Phase) × (of_webvtt phase ≡ true) × Shape finish phase p × (measure phase p rest < n)
NextOk finish n (leave status p rest) = LeftOk finish n status p rest
