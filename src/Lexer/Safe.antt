-- ===== src/Lexer/Safe.antt =====
-- The token buffer of src/libwebvtt/lexer.c is not written out of bounds, from a token's beginning.
use webvtt.Base.{
  ℕ, zero, suc, ◌-◌, ◌≤◌, ◌≡◌, refl, Bool, false, Bool-cases, inl, inr, Option, none, some, [], ◌∷◌,
  Bytes, arith, length, length-append, if◌then◌else◌, take, ◌&&◌, ltb,
}
use webvtt.Lexer.{
  is_unfinished, LexState, l_start, l_bom0, l_bom1, l_webvtt0, l_webvtt1, l_webvtt2, l_webvtt3,
  l_webvtt4, l_newline0, l_whitespace, Lexer, Lexed, Step, more, taken, given_back, push, lex_byte,
  end_in, lex_end, lex,
}

-- The number of bytes that a state has in the token.
abbrev pub Holds : LexState → ℕ → Type 0
Holds l_start n = n ≡ 0
Holds l_bom0 n = n ≡ 1
Holds l_bom1 n = n ≡ 2
Holds l_webvtt0 n = n ≡ 1
Holds l_webvtt1 n = n ≡ 2
Holds l_webvtt2 n = n ≡ 3
Holds l_webvtt3 n = n ≡ 4
Holds l_webvtt4 n = n ≡ 5
Holds l_newline0 n = n ≡ 1
Holds l_whitespace n = (1 ≤ n) × (n ≤ 254)

abbrev pub IsReady : Lexer → Type 0
IsReady l = Holds l.tstate (length l.token)

abbrev pub StepReady : Step → Type 0
StepReady (more l) = IsReady l
StepReady (taken t l) = (length l.token ≤ 255) × (is_unfinished t ≡ false) × (l.tstate ≡ l_start)
StepReady (given_back t l) =
    (length l.token ≤ 255) × (is_unfinished t ≡ false) × (l.tstate ≡ l_start)

pub length-take_le : (n : ℕ) (xs : Bytes) → length (take n xs) ≤ length xs
length-take_le zero xs = omega arith
length-take_le (suc n) [] = omega arith
length-take_le (suc n) (x ∷ xs) = omega (arith, length-take_le n xs)

pub lex_byte-Ready :
    (s : LexState) (l : Lexer) (c : ℕ)
    → Holds s (length l.token)
    → l.tstate ≡ s
    → StepReady (lex_byte s (push l c) c)
unfolding lex_byte
lex_byte-Ready l_start l c h e = ground (
  arith,
  length-append l.token (c ∷ []),
  length-take_le (length (push l c).token - 1) (push l c).token,
)
lex_byte-Ready _ l c h e = ground (
  arith,
  length-append l.token (c ∷ []),
  length-take_le (length (push l c).token - 1) (push l c).token,
)

pub room : (s : LexState) (n : ℕ) → Holds s n → n ≤ 254
room l_start n h = omega arith
room _ n h = omega arith

-- Where the next call begins: `token_pos` goes back to 0 behind a token that is finished.
abbrev pub next_call : Lexed → Lexer
next_call r = if is_unfinished r.token then r.lexer else record (r.lexer) { token = [] }

-- The call is no fault, its token has 255 bytes at most, and the next call is ready.
abbrev pub LexSafe : Option Lexed → Type 0
LexSafe none = ⊥
LexSafe (some r) = (length r.lexer.token ≤ 255) × IsReady (next_call r)

end_in-Safe :
    (s : LexState) (l : Lexer)
    → length l.token ≤ 255
    → (length (end_in s l).1.token ≤ 255)
      × (is_unfinished (end_in s l).0 ≡ false)
      × ((end_in s l).1.tstate ≡ l_start)
unfolding end_in
end_in-Safe l_whitespace l h = ground arith
end_in-Safe _ l h = ground arith

lex_end-Safe : (finish : Bool) (l : Lexer) → IsReady l → LexSafe (some (lex_end finish l))
unfolding lex_end
lex_end-Safe finish l h =
    let r = room l.tstate (length l.token) h in
    let (short, other, begun) = end_in-Safe l.tstate l (omega (arith, r)) in
    elim (Bool-cases (finish && ltb 0 (length l.token))) [
      | inl ends ↦ rw (ends, other, begun) (short, refl)
      | inr waits ↦ rw waits (omega (arith, r), h)
    ]

module _ (finish : Bool) (c : ℕ) (s : Bytes) where
  abbrev pub lex_next : Step → Option Lexed
  lex_next (more l') = lex finish s l'
  lex_next (taken t l') = some (record { token = t; lexer = l'; rest = s })
  lex_next (given_back t l') = some (record { token = t; lexer = l'; rest = c ∷ s })

  lex_next-Safe :
      (st : Step)
      → StepReady st
      → ((l : Lexer) → IsReady l → LexSafe (lex finish s l))
      → LexSafe (lex_next st)
  lex_next-Safe (more l) h later = later l h
  lex_next-Safe (taken t l) (h, n, e) later = rw (n, e) (h, refl)
  lex_next-Safe (given_back t l) (h, n, e) later = rw (n, e) (h, refl)

  pub lex_cons :
      (l : Lexer)
      → length l.token ≤ 254
      → lex finish (c ∷ s) l ≡ lex_next (lex_byte l.tstate (push l c) c)
  unfolding lex
  lex_cons l h = ground arith

-- From the beginning of a token, or from where an unfinished one was left, the token buffer is not
-- written out of bounds, whatever the buffer holds; and the next call is in the same position, if
-- `token_pos` is set back to 0 behind a finished token.
pub lex_safe : (finish : Bool) (s : Bytes) (l : Lexer) → IsReady l → LexSafe (lex finish s l)
lex_safe finish [] l h = unfold lex in lex_end-Safe finish l h
lex_safe finish (c ∷ s) l h = rw (lex_cons finish c s l (room l.tstate (length l.token) h)) (
    lex_next-Safe finish c s (lex_byte l.tstate (push l c) c) (lex_byte-Ready l.tstate l c h refl)
      (lex_safe finish s))
