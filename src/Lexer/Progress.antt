-- ===== src/Lexer/Progress.antt =====
-- What `webvtt_lex` (src/libwebvtt/lexer.c) takes of a chunk, for the loop of `parse_webvtt`.
use webvtt.Base.{
  ℕ, ◌+◌, ◌≤◌, ◌<◌, ◌≡◌, refl, ◌⊎◌, inl, inr, Bool, Bool-cases, true, false, some, [], ◌∷◌, Bytes,
  arith, length, length-append, ltb, ◌-◌, ◌==◌, ◌++◌, ◌&&◌, leb,
}
use webvtt.Lexer.{
  unfinished_token, newline, is_unfinished, LexState, l_start, l_newline0, l_whitespace, Lexer,
  Lexed, Step, more, taken, given_back, push, lex_byte, end_in, lex_end, lex, lex_newline,
  newline_byte, newline_end, is_newline0,
}
use webvtt.Lexer.Safe.{
  length-take_le, Holds, IsReady, StepReady, lex_byte-Ready, room, lex_next, lex_cons,
}
use webvtt.StringData.Lines.{IsEnd}

-- Whether a token has been begun.
abbrev pub from_start : LexState → ℕ
from_start l_start = 0
from_start _ = 1

-- The token waits for more, or it is finished and some of the text is taken; a line end takes a byte, or
-- ends what an earlier chunk began.
abbrev pub Leads : Bool → Bytes → ℕ → Lexed → Type 0
Leads finish s begun r =
    ((is_unfinished r.token ≡ true)
      × (r.rest ≡ [])
      × IsReady r.lexer
      × (finish ≡ true → r.lexer.tstate ≡ l_start))
    ⊎ ((is_unfinished r.token ≡ false)
        × (r.lexer.tstate ≡ l_start)
        × (length r.rest ≤ length s)
        × (r.token ≡ newline → length r.rest < length s + begun))

-- A line end that gives its byte back was begun before.
abbrev Begun : LexState → Step → Type 0
Begun s (given_back newline l) = from_start s ≡ 1
Begun s _ = Unit

lex_byte-Begun : (s : LexState) (l : Lexer) (c : ℕ) → Begun s (lex_byte s l c)
unfolding lex_byte
lex_byte-Begun _ l c = ground arith

pub from_start_le : (s : LexState) → from_start s ≤ 1
from_start_le l_start = omega arith
from_start_le _ = omega arith

end_in_lem :
    (s : LexState) (l : Lexer)
    → (is_unfinished (end_in s l).0 ≡ false) × ((end_in s l).1.tstate ≡ l_start)
unfolding end_in
end_in_lem l_whitespace l = (refl, refl)
end_in_lem _ l = (refl, refl)

no_token : (s : LexState) (n : ℕ) → Holds s n → n ≡ 0 → s ≡ l_start
no_token l_start n h z = refl
no_token _ n h z = absurd (omega arith)

lex_end-Leads :
    (finish : Bool) (s : Bytes) (n : ℕ) (l : Lexer)
    → IsReady l
    → (0 < length s + n) ⊎ (length l.token ≡ 0)
    → Leads finish s n (lex_end finish l)
unfolding lex_end
lex_end-Leads finish s n l h some_left = elim (Bool-cases (finish && ltb 0 (length l.token))) [
  | inl ends ↦
      let (whole, start) = end_in_lem l.tstate l in
      rw ends (
        inr (
          whole,
          start,
          omega arith,
          λ x. elim some_left [ inl left ↦ left | inr none_left ↦ absurd (ground arith) ],
        ))
  | inr waits ↦
      rw waits (inl (refl, refl, h, λ last. no_token l.tstate (length l.token) h (ground arith)))
]

weaken :
    (finish : Bool) (c : ℕ) (s : Bytes) (n m : ℕ) (r : Lexed)
    → n ≤ 1
    → Leads finish s n r
    → Leads finish (c ∷ s) m r
weaken finish c s n m r le (inl waits) = inl waits
weaken finish c s n m r le (inr (whole, start, less, line_end)) =
    inr (whole, start, omega arith, λ x. omega (arith, line_end x))

module _ (finish : Bool) (c : ℕ) (s : Bytes) where
  lex_next-Leads :
      (begun : ℕ) (state : LexState) (st : Step)
      → StepReady st
      → Begun state st
      → from_start state ≡ begun
      → ((l : Lexer)
          → IsReady l
          → (r : Lexed) × (lex finish s l ≡ some r) × Leads finish s (from_start l.tstate) r)
      → (r : Lexed) × (lex_next finish c s st ≡ some r) × Leads finish (c ∷ s) begun r
  lex_next-Leads n state (more l) h b e later =
      let (r, e', leads) = later l h in
      (r, e', weaken finish c s (from_start l.tstate) n r (from_start_le l.tstate) leads)
  lex_next-Leads n state (taken t l) (h, u, start) b e later =
      (_, refl, inr (u, start, omega arith, λ x. omega arith))
  lex_next-Leads n state (given_back newline l) (h, u, start) b e later =
      (_, refl, inr (u, start, omega arith, λ x. omega (arith, b, e)))
  lex_next-Leads n state (given_back t l) (h, u, start) b e later =
      (_, refl, inr (u, start, omega arith, λ x. absurd (cc x)))

-- Either a token has been begun, or it has no byte.
begun_or_none : (s : LexState) (n : ℕ) → Holds s n → (0 < 0 + from_start s) ⊎ (n ≡ 0)
begun_or_none l_start n h = inr h
begun_or_none _ n h = inl (omega arith)

-- The call is no fault.
pub lex-Leads :
    (finish : Bool) (s : Bytes) (l : Lexer)
    → IsReady l
    → (r : Lexed) × (lex finish s l ≡ some r) × Leads finish s (from_start l.tstate) r
lex-Leads finish [] l h =
    unfold lex in
    (_, refl, lex_end-Leads finish [] _ l h (begun_or_none l.tstate (length l.token) h))
lex-Leads finish (c ∷ s) l h = rw (lex_cons finish c s l (room l.tstate (length l.token) h)) (
    lex_next-Leads finish c s (from_start l.tstate) l.tstate (lex_byte l.tstate (push l c) c)
      (lex_byte-Ready l.tstate l c h refl) (lex_byte-Begun l.tstate (push l c) c) refl
      (lex-Leads finish s))

-- A line end is taken, or a carriage return that ends the chunk waits for what follows; `k` bytes
-- were in the token before.
abbrev pub Ended : Bool → Bytes → ℕ → ℕ → Lexed × Bool → Type 0
Ended finish s begun k (r, back) =
    (back ≡ false)
    × (((r.token ≡ newline)
          × (r.lexer.tstate ≡ l_start)
          × (length r.lexer.token ≤ k + 2)
          × ((length r.rest < length s + begun) ⊎ (r.rest ≡ [])))
        ⊎ ((r.token ≡ unfinished_token)
            × (r.rest ≡ [])
            × (r.lexer.tstate ≡ l_newline0)
            × (length r.lexer.token ≡ k + 1)
            × (finish ≡ false)))

-- Behind a carriage return, whatever comes.
pub lex_newline-Begun :
    (finish : Bool) (s : Bytes) (l : Lexer) (k : ℕ)
    → l.tstate ≡ l_newline0
    → length l.token ≡ k + 1
    → k ≤ 2
    → (r : Lexed × Bool) × (lex_newline finish s l ≡ some r) × Ended finish s 1 k r
unfolding lex_newline newline_byte newline_end is_newline0
lex_newline-Begun true [] l k e n small = (_, refl, (refl, inl (refl, refl, omega arith, inr refl)))
lex_newline-Begun false [] l k e n small =
    let waits : is_newline0 l.tstate ≡ true = rw e refl in
    rw waits (_, refl, (refl, inr (refl, refl, e, n, refl)))
lex_newline-Begun finish (c ∷ s) l k e n small =
    let two : length (l.token ++ c ∷ []) ≡ k + 2 =
      omega (arith, n, length-append l.token (c ∷ [])) in
    let fits : leb 255 (length l.token) ≡ false = ground arith in
    elim (Bool-cases (c == b'\n')) [
      | inl feed ↦
          rw (e, fits, feed)
            (_, refl, (refl, inl (refl, refl, omega (arith, two), inl (omega arith))))
      | inr other ↦
          rw (e, fits, other)
            (
              _,
              refl,
              (
                refl,
                inl (
                  refl,
                  refl,
                  omega (
                    arith,
                    two,
                    length-take_le (length (l.token ++ c ∷ []) - 1) (l.token ++ c ∷ []),
                  ),
                  inl (omega arith),
                ),
              ),
            )
    ]

shorter :
    (finish : Bool) (k : ℕ) (s t : Bytes) (r : Lexed × Bool)
    → length s < length t
    → Ended finish s 1 k r
    → Ended finish t 0 k r
shorter finish k s t r less (whole, inl (token, start, short, inl fewer)) =
    (whole, inl (token, start, short, inl (omega arith)))
shorter finish k s t r less (whole, inl (token, start, short, inr none_left)) =
    (whole, inl (token, start, short, inr none_left))
shorter finish k s t r less (whole, inr waits) = (whole, inr waits)

-- At the end of a line.
pub lex_newline-Start :
    (finish : Bool) (s : Bytes) (l : Lexer) (k : ℕ)
    → ((s ≡ []) × (finish ≡ true)) ⊎ ((c : ℕ) × (t : Bytes) × (s ≡ c ∷ t) × IsEnd c)
    → l.tstate ≡ l_start
    → length l.token ≡ k
    → k ≤ 2
    → (r : Lexed × Bool) × (lex_newline finish s l ≡ some r) × Ended finish s 0 k r
unfolding lex_newline newline_byte newline_end
lex_newline-Start finish s l k (inl (none_left, last)) e n small =
    rw (none_left, last) (_, refl, (refl, inl (refl, refl, omega arith, inr refl)))
lex_newline-Start finish s l k (inr (c, t, some_left, inr feed)) e n small =
    let one : length (l.token ++ b'\n' ∷ []) ≡ k + 1 =
      omega (arith, n, length-append l.token (b'\n' ∷ [])) in
    let fits : leb 255 (length l.token) ≡ false = ground arith in
    rw (some_left, feed, e, fits)
      (_, refl, (refl, inl (refl, refl, omega (arith, one), inl (omega arith))))
lex_newline-Start finish s l k (inr (c, t, some_left, inl return)) e n small =
    let one : length (l.token ++ b'\r' ∷ []) ≡ k + 1 =
      omega (arith, n, length-append l.token (b'\r' ∷ [])) in
    let (r, found, ended) =
      lex_newline-Begun finish t
        (record l { token = l.token ++ b'\r' ∷ []; bytes = l.bytes + 1; tstate = l_newline0 }) k
        refl one small in
    let fits : leb 255 (length l.token) ≡ false = ground arith in
    rw (some_left, return, e, fits) (r, found, shorter finish k t (b'\r' ∷ t) r (omega arith) ended)
