-- ===== src/Lexer/Resume.antt =====
-- src/libwebvtt/lexer.c over a text that arrives in chunks, and over long runs of white space.
use webvtt.Base.{
  ℕ, ◌+◌, ◌≤◌, ◌≡◌, ◌≢◌, refl, Bool, false, Option, none, some, [], ◌∷◌, ◌++◌, Bytes, All, ◌⊎◌, inl,
  inr, arith, length, length-append, if◌then◌else◌,
}
use webvtt.Lexer.Safe.{IsReady, StepReady, lex_next, lex_cons, lex_byte-Ready, room}
use webvtt.Lexer.{
  is_unfinished, whitespace, l_start, l_whitespace, Lexer, Lexed, Step, more, taken, given_back,
  push, lex_byte, lex_end, lex,
}

-- How the call on a text goes on from the call on its first part.
abbrev pub GoesOn : Bool → Bytes → Option Lexed → Option Lexed → Type 0
GoesOn finish b whole none = ⊥
GoesOn finish b whole (some r) =
    (whole ≡ (
      if is_unfinished r.token
      then lex finish b r.lexer
      else some (record r { rest = r.rest ++ b })))
    × ((if is_unfinished r.token then r.rest else []) ≡ [])

module _ (finish : Bool) (c : ℕ) (a b : Bytes) where
  lex_next-GoesOn :
      (st : Step)
      → StepReady st
      → ((l : Lexer) → IsReady l → GoesOn finish b (lex finish (a ++ b) l) (lex false a l))
      → GoesOn finish b (lex_next finish c (a ++ b) st) (lex_next false c a st)
  lex_next-GoesOn (more l) h later = later l h
  lex_next-GoesOn (taken t l) (h, n, e) later = rw n (refl, refl)
  lex_next-GoesOn (given_back t l) (h, n, e) later = rw n (refl, refl)

lex_nil-GoesOn :
    (finish : Bool) (b : Bytes) (l : Lexer) → GoesOn finish b (lex finish b l) (lex false [] l)
unfolding lex lex_end
lex_nil-GoesOn finish b l = (refl, refl)

-- From the beginning of a token, or from where an unfinished one was left, a text may be cut
-- anywhere: the call on its first part, as a chunk that is not the last, either finds the token that the call on the whole text finds, or takes all of the chunk and leaves a state
-- from which the call on the second part gives the result of the call on the whole.
pub lex_resume :
    (finish : Bool) (a b : Bytes) (l : Lexer)
    → IsReady l
    → GoesOn finish b (lex finish (a ++ b) l) (lex false a l)
lex_resume finish [] b l h = lex_nil-GoesOn finish b l
lex_resume finish (c ∷ a) b l h =
    let r = room l.tstate (length l.token) h in
    rw (lex_cons finish c (a ++ b) l r, lex_cons false c a l r)
      (lex_next-GoesOn finish c a b (lex_byte l.tstate (push l c) c)
        (lex_byte-Ready l.tstate l c h refl) (λ m. lex_resume finish a b m))

abbrev pub IsBlank : ℕ → Type 0
IsBlank c = (c ≡ b' ') ⊎ (c ≡ b'\t')

abbrev IsOpen : Lexer → Type 0
IsOpen l = ((l.tstate ≡ l_start) × (length l.token ≡ 0)) ⊎ (l.tstate ≡ l_whitespace)

blank_more :
    (l : Lexer) (c : ℕ)
    → IsBlank c
    → length l.token ≤ 253
    → IsOpen l
    → lex_byte l.tstate (push l c) c ≡ more (record (push l c) { tstate = l_whitespace })
unfolding lex_byte
blank_more l c b n (inl (s, z)) = rw s (ground arith)
blank_more l c b n (inr s) = rw s (ground (arith, length-append l.token (c ∷ [])))

blank_last :
    (l : Lexer) (c : ℕ)
    → IsBlank c
    → length l.token ≡ 254
    → IsOpen l
    → lex_byte l.tstate (push l c) c ≡ taken whitespace (record (push l c) { tstate = l_start })
unfolding lex_byte
blank_last l c b n (inl (s, z)) = absurd (omega arith)
blank_last l c b n (inr s) = rw s (ground (arith, length-append l.token (c ∷ [])))

-- The outcome of a run that fills the token buffer.
abbrev pub Fills : Bytes → Option Lexed → Type 0
Fills rest none = ⊥
Fills rest (some r) = (r.token ≡ whitespace) × (r.rest ≡ rest) × (length r.lexer.token ≡ 255)

blank_run :
    (finish : Bool) (ws rest : Bytes) (l : Lexer)
    → All IsBlank ws
    → IsOpen l
    → length ws ≢ 0
    → length l.token + length ws ≡ 255
    → Fills rest (lex finish (ws ++ rest) l)
blank_run finish [] rest l h o ne n = absurd (ne refl)
blank_run finish (c ∷ []) rest l (hc, _) o ne n =
    rw (lex_cons finish c rest l (omega arith), blank_last l c hc (omega arith) o)
      (refl, refl, omega (arith, length-append l.token (c ∷ [])))
blank_run finish (c ∷ d ∷ ws) rest l (hc, hs) o ne n =
    rw (lex_cons finish c (d ∷ (ws ++ rest)) l (omega arith), blank_more l c hc (omega arith) o)
      (blank_run finish (d ∷ ws) rest (record (push l c) { tstate = l_whitespace }) hs (inr refl)
        (omega arith) (omega (arith, length-append l.token (c ∷ []))))

full_token :
    (finish : Bool) (c : ℕ) (s : Bytes) (l : Lexer)
    → length l.token ≡ 255
    → lex finish (c ∷ s) l ≡ none
unfolding lex
full_token finish c s l h = ground arith

-- From the beginning of a token, a run of 255 blanks is one white-space token, which fills the token
-- buffer. If `token_pos` is not set back to 0 before the next call on a text that is not empty, that
-- call writes out of bounds.
pub lex_blanks_fill :
    (finish again : Bool) (ws rest : Bytes) (l : Lexer) (c : ℕ) (s : Bytes)
    → All IsBlank ws
    → length ws ≡ 255
    → l.tstate ≡ l_start
    → length l.token ≡ 0
    → (r : Lexed) × (lex finish (ws ++ rest) l ≡ some r)
      × (r.token ≡ whitespace)
      × (r.rest ≡ rest)
      × (lex again (c ∷ s) r.lexer ≡ none)
lex_blanks_fill finish again ws rest l c s h n e z =
    filled _ (blank_run finish ws rest l h (inl (e, z)) (omega arith) (omega arith))
  where
    filled :
        (o : Option Lexed)
        → Fills rest o
        → (r : Lexed) × (o ≡ some r)
          × (r.token ≡ whitespace)
          × (r.rest ≡ rest)
          × (lex again (c ∷ s) r.lexer ≡ none)
    filled none f = absurd f
    filled (some r) (t, q, k) = (r, refl, t, q, full_token again c s r.lexer k)
