-- ===== src/Lexer/Newline.antt =====
-- `webvtt_lex_newline` (src/libwebvtt/lexer.c) on the three ways to end a line.
use webvtt.Base.{
  ℕ, ◌≡◌, ◌≢◌, refl, ◌⊎◌, inl, inr, Bool, false, some, [], ◌∷◌, ◌++◌, Bytes, ◌==◌, arith, length,
  length-append,
}
use webvtt.Lexer.{newline, l_start, Lexer, Lexed, lex_newline}

-- A line feed, a carriage return and a line feed, or a carriage return before another byte: the end
-- itself, and what is behind it.
abbrev pub IsLineEnd : Bytes → Bytes → Type 0
IsLineEnd end rest =
    (end ≡ b'\n' ∷ [])
    ⊎ (end ≡ b'\r' ∷ b'\n' ∷ [])
    ⊎ ((end ≡ b'\r' ∷ []) × ((c : ℕ) × (s : Bytes) × (rest ≡ c ∷ s) × (c ≢ b'\n')))

lone_return :
    (finish : Bool) (c : ℕ) (t : Bytes) (l : Lexer)
    → c ≢ b'\n'
    → l.tstate ≡ l_start
    → length l.token ≡ 0
    → (r : Lexed) × (lex_newline finish (b'\r' ∷ c ∷ t) l ≡ some (r, false))
      × (r.token ≡ newline)
      × (r.rest ≡ c ∷ t)
      × (r.lexer.tstate ≡ l_start)
unfolding lex_newline
lone_return finish c t l other s z =
    let n : length (l.token ++ b'\r' ∷ []) ≡ 1 =
      omega (arith, length-append l.token (b'\r' ∷ [])) in
    let o : (c == b'\n') ≡ false = ground arith in rw (s, z, n, o) (_, refl, refl, refl, refl)

line_feed :
    (finish : Bool) (t : Bytes) (l : Lexer)
    → l.tstate ≡ l_start
    → length l.token ≡ 0
    → (r : Lexed) × (lex_newline finish (b'\n' ∷ t) l ≡ some (r, false))
      × (r.token ≡ newline)
      × (r.rest ≡ t)
      × (r.lexer.tstate ≡ l_start)
unfolding lex_newline
line_feed finish t l s z = rw (s, z) (_, refl, refl, refl, refl)

both :
    (finish : Bool) (t : Bytes) (l : Lexer)
    → l.tstate ≡ l_start
    → length l.token ≡ 0
    → (r : Lexed) × (lex_newline finish (b'\r' ∷ b'\n' ∷ t) l ≡ some (r, false))
      × (r.token ≡ newline)
      × (r.rest ≡ t)
      × (r.lexer.tstate ≡ l_start)
unfolding lex_newline
both finish t l s z =
    let n : length (l.token ++ b'\r' ∷ []) ≡ 1 =
      omega (arith, length-append l.token (b'\r' ∷ [])) in
    rw (s, z, n) (_, refl, refl, refl, refl)

-- From the beginning of a token, a line feed, a carriage return with a line feed, or a carriage return
-- with a byte other than a line feed behind it in the same buffer is taken whole and alone as a newline,
-- in the last chunk or not, without a write out of bounds, and the lexer is at the beginning again.
pub lex_newline_takes :
    (finish : Bool) (end rest : Bytes) (l : Lexer)
    → IsLineEnd end rest
    → l.tstate ≡ l_start
    → length l.token ≡ 0
    → (r : Lexed) × (lex_newline finish (end ++ rest) l ≡ some (r, false))
      × (r.token ≡ newline)
      × (r.rest ≡ rest)
      × (r.lexer.tstate ≡ l_start)
lex_newline_takes finish end rest l (inl e) s z = rw e (line_feed finish rest l s z)
lex_newline_takes finish end rest l (inr (inl e)) s z = rw e (both finish rest l s z)
lex_newline_takes finish end rest l (inr (inr (e, (c, t, behind, other)))) s z =
    rw (e, behind) (lone_return finish c t l other s z)
