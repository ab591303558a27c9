-- ===== src/Parser/Body/Buffer.antt =====
-- The buffer of lines of `webvtt_read_cuetext` (src/libwebvtt/parser.c) between two rounds and between
-- two chunks.
use webvtt.Base.{
  ℕ, ◌≤◌, ◌<◌, ◌≡◌, refl, ap, ◌∙◌, ◌⊎◌, inl, inr, Bool-cases, true, false, Option, none, some, [],
  ◌∷◌, ◌++◌, Bytes, arith, length, length-append, ◌==◌, All,
}
use webvtt.Lexer.{l_start, l_newline0, Lexer}
use webvtt.Parser.{Parser}
use webvtt.Parser.Payload.{last_is_newline}
use webvtt.StringData.{StringData, too_long}
use webvtt.StringData.Bounds.{IsSound}
use webvtt.StringData.Lines.{IsInner}
use webvtt.StringData.Replace.Nul.{substitute, replacement}

-- No byte of a line end is read, or a carriage return that ended a chunk.
abbrev pub Unbegun : Lexer → Type 0
Unbegun l = (l.tstate ≡ l_start) × (length l.token ≤ 2)

abbrev pub Returned : Lexer → Type 0
Returned l = (l.tstate ≡ l_newline0) × (1 ≤ length l.token) × (length l.token ≤ 3)

-- A part of a line, and a complete line with its mark.
abbrev pub IsPart : StringData → Type 0
IsPart str = IsSound str × (0 < length str.text) × (last_is_newline str.text ≡ false)

abbrev pub IsMarked : StringData → Type 0
IsMarked str = IsSound str × (0 < length str.text) × (last_is_newline str.text ≡ true)

abbrev pub PartBuffer : Option StringData → Type 0
PartBuffer none = Unit
PartBuffer (some str) = IsPart str

-- What an earlier chunk left in the buffer of lines: nothing, a part of a line, or a line whose end is
-- still to be read.
abbrev pub InBuffer : Option StringData → Lexer → Type 0
InBuffer none l = Unbegun l
InBuffer (some str) l =
    (0 < length str.text)
    × IsSound str
    × (((last_is_newline str.text ≡ false) × (Unbegun l ⊎ Returned l))
        ⊎ ((last_is_newline str.text ≡ true) × Returned l))

abbrev pub Kept : Parser → Type 0
Kept p = InBuffer p.line_buffer p.lexer

-- A string that a line is read to: a new one, or a part of a line.
abbrev pub IsOpen : StringData → Type 0
IsOpen str = ((length str.text ≡ 0) × (str.alloc ≡ 0x100)) ⊎ IsPart str

last_append :
    (t : Bytes) (c : ℕ) (s : Bytes) → last_is_newline (t ++ (c ∷ s)) ≡ last_is_newline (c ∷ s)
unfolding last_is_newline
last_append [] c s = refl
last_append (x ∷ []) c s = refl
last_append (x ∷ y ∷ t) c s = last_append (y ∷ t) c s

inner_last : (c : ℕ) (s : Bytes) → All IsInner (c ∷ s) → last_is_newline (c ∷ s) ≡ false
unfolding last_is_newline
inner_last c [] h = let other = h.0.1 in ground arith
inner_last c (d ∷ s) h = inner_last d s h.1

substitute-append : (t : Bytes) → substitute (t ++ b'\n' ∷ []) ≡ substitute t ++ b'\n' ∷ []
unfolding substitute
substitute-append [] = refl
substitute-append (c ∷ t) = elim (Bool-cases (c == 0)) [
  | inl nul ↦ rw nul (ap (λ s. replacement ++ s) (substitute-append t))
  | inr other ↦ rw other (ap (λ s. c ∷ s) (substitute-append t))
]

-- A line with its mark keeps it where each NUL is replaced.
pub marked_lem :
    (t : Bytes)
    → (0 < length (substitute (t ++ b'\n' ∷ [])))
      × (last_is_newline (substitute (t ++ b'\n' ∷ [])) ≡ true)
marked_lem t = (
  rw (substitute-append t) (omega (arith, length-append (substitute t) (b'\n' ∷ []))),
  rw (substitute-append t) (last_append (substitute t) b'\n' [] ∙ unfold last_is_newline in refl),
)

-- A part of a line was read, or cut.
pub part_lem :
    (str q : StringData) (line : Bytes) (n : ℕ)
    → IsOpen str
    → All IsInner line
    → 0 < length line
    → (q.text ≡ str.text ++ line) ⊎ ((q.text ≡ str.text) × (too_long (some n) str ≡ true))
    → (0 < length q.text) × (last_is_newline q.text ≡ false)
part_lem str q [] n fresh inner filled either = absurd (omega arith)
part_lem str q (c ∷ line) n fresh inner filled (inl whole) = (
  rw whole (omega (arith, length-append str.text (c ∷ line))),
  rw whole (last_append str.text c line ∙ inner_last c line inner),
)
part_lem str q (c ∷ line) n (inl (none_yet, small)) inner filled (inr (same, cut)) =
    absurd (unfold too_long in (ground (arith, small)))
part_lem str q (c ∷ line) n (inr part) inner filled (inr (same, cut)) =
    (rw same part.1, rw same part.2)
