-- ===== src/Utf8/Walk.antt =====
-- The routines that walk over a text (src/libwebvtt/string.c), on encoded characters and on bytes
-- that begin none.
use native.Mathlib.Decide.{dec_lt}
use webvtt.Base.{
  ℕ, zero, suc, ◌+◌, ◌/◌, ◌%◌, ◌≤◌, ◌<◌, ◌≡◌, refl, ◌∙◌, true, none, some, [], ◌∷◌, ◌++◌, arith,
  Bytes, List, All, length, length-append, drop, peek, append_assoc, ◌⊎◌,
}
use webvtt.Utf8.{utf8_length, next_utf8, skip_loop, skip_utf8, chcount_loop, utf8_chcount}
use webvtt.Utf8.Encode.{encode}

-- U+0000 ends a text, so it stands in none.
abbrev pub IsCodePoint : ℕ → Type 0
IsCodePoint c = (0 < c) × (c < 0x110000)

abbrev pub encode_all : List ℕ → Bytes
encode_all [] = []
encode_all (c ∷ cs) = encode c ++ encode_all cs

utf8_length-encode :
    (c : ℕ) (rest : Bytes)
    → IsCodePoint c
    → utf8_length (peek (encode c ++ rest)) ≡ some (length (encode c))
unfolding utf8_length encode
utf8_length-encode c rest h = ground arith

drop-length : (xs ys : Bytes) → drop (length xs) (xs ++ ys) ≡ ys
drop-length [] ys = refl
drop-length (x ∷ xs) ys = drop-length xs ys

encode_cons : (c : ℕ) → (b : ℕ) × (s : Bytes) × (encode c ≡ b ∷ s) × (0 < c → 0 < b)
unfolding encode
encode_cons c = elim (dec_lt c 0x80) [
  | yes a ↦ (c, [], ground arith, λ h. h)
  | no a ↦ elim (dec_lt c 0x800) [
    | yes b ↦ (0xC0 + c / 64, (0x80 + c % 64) ∷ [], ground arith, λ h. omega arith)
    | no b ↦ elim (dec_lt c 0x10000) [
      | yes d ↦ (
        0xE0 + c / 4096,
        (0x80 + c / 64 % 64) ∷ (0x80 + c % 64) ∷ [],
        ground arith,
        λ h. omega arith,
      )
      | no d ↦ (
        0xF0 + c / 262144,
        (0x80 + c / 4096 % 64) ∷ (0x80 + c / 64 % 64) ∷ (0x80 + c % 64) ∷ [],
        ground arith,
        λ h. omega arith,
      )
    ]
  ]
]

-- One call passes one encoded character.
pub next_utf8-encode :
    (c : ℕ) (rest : Bytes) → IsCodePoint c → next_utf8 (encode c ++ rest) ≡ some rest
unfolding next_utf8
next_utf8-encode c rest h =
    let (b, s, e, p) = encode_cons c in
    ground (
      arith,
      utf8_length-encode c rest h,
      p h.0,
      e,
      length-append (encode c) rest,
      drop-length (encode c) rest,
    )

pub length-encode_pos : (c : ℕ) → 0 < length (encode c)
unfolding encode
length-encode_pos c = ground arith

chcount_step :
    (fuel c : ℕ) (rest : Bytes)
    → IsCodePoint c
    → chcount_loop (suc fuel) (encode c ++ rest) ≡ chcount_loop fuel rest + 1
unfolding chcount_loop
chcount_step fuel c rest h =
    let (b, s, e, p) = encode_cons c in
    ground (arith, utf8_length-encode c rest h, e, drop-length (encode c) rest)

chcount_loop-encode_all :
    (cs : List ℕ) (fuel : ℕ)
    → All IsCodePoint cs
    → length cs ≤ fuel
    → chcount_loop fuel (encode_all cs) ≡ length cs
chcount_loop-encode_all [] zero h f = unfold chcount_loop in refl
chcount_loop-encode_all [] (suc fuel) h f = unfold chcount_loop in refl
chcount_loop-encode_all (c ∷ cs) zero h f = absurd (omega arith)
chcount_loop-encode_all (c ∷ cs) (suc fuel) (hc, hs) f =
    chcount_step fuel c (encode_all cs) hc
    ∙ omega (arith, chcount_loop-encode_all cs fuel hs (omega arith))

length-encode_all : (cs : List ℕ) → length cs ≤ length (encode_all cs)
length-encode_all [] = omega arith
length-encode_all (c ∷ cs) =
    omega
      (arith, length-encode_all cs, length-encode_pos c, length-append (encode c) (encode_all cs))

peek-encode_all : (c : ℕ) (cs : List ℕ) → IsCodePoint c → 0 < peek (encode_all (c ∷ cs))
peek-encode_all c cs h = let (b, s, e, p) = encode_cons c in ground (arith, e, p h.0)

-- The count of characters of an encoded text is their number.
pub utf8_chcount-encode_all :
    (cs : List ℕ) → All IsCodePoint cs → utf8_chcount (encode_all cs) ≡ length cs
unfolding utf8_chcount
utf8_chcount-encode_all [] h = refl
utf8_chcount-encode_all (c ∷ cs) h = ground (
  arith,
  peek-encode_all c cs h.0,
  chcount_loop-encode_all (c ∷ cs) _ h (length-encode_all (c ∷ cs)),
)

skip_step :
    (fuel n c : ℕ) (rest : Bytes)
    → IsCodePoint c
    → skip_loop (suc fuel) (suc n) (encode c ++ rest) ≡ skip_loop fuel n rest
unfolding skip_loop
skip_step fuel n c rest h =
    let (b, s, e, p) = encode_cons c in ground (arith, e, next_utf8-encode c rest h)

skip_loop-encode_all :
    (cs : List ℕ) (rest : Bytes) (fuel : ℕ)
    → All IsCodePoint cs
    → length cs < fuel
    → skip_loop fuel (length cs) (encode_all cs ++ rest) ≡ some (0, rest)
skip_loop-encode_all cs rest zero h f = absurd (omega arith)
skip_loop-encode_all [] rest (suc fuel) h f = unfold skip_loop in refl
skip_loop-encode_all (c ∷ cs) rest (suc fuel) (hc, hs) f = rw append_assoc (
    skip_step fuel (length cs) c (encode_all cs ++ rest) hc
    ∙ skip_loop-encode_all cs rest fuel hs (omega arith))

-- To skip as many characters as there are in an encoded text ends behind that text, in one round
-- for each character and one more.
pub skip_utf8-encode_all :
    (cs : List ℕ) (rest : Bytes) (fuel : ℕ)
    → All IsCodePoint cs
    → length cs < fuel
    → skip_utf8 fuel (length cs) (encode_all cs ++ rest) ≡ some (true, rest)
unfolding skip_utf8
skip_utf8-encode_all cs rest fuel h f = rw (skip_loop-encode_all cs rest fuel h f, skip_utf8)

stuck_loop :
    (fuel n b : ℕ) (s : Bytes) → next_utf8 (b ∷ s) ≡ none → skip_loop fuel (suc n) (b ∷ s) ≡ none
unfolding skip_loop
stuck_loop zero n b s h = refl
stuck_loop (suc fuel) n b s h = ground (arith, stuck_loop fuel n b s h)

-- At a byte that `webvtt_next_utf8` does not pass, skipping one or more characters never ends:
-- there is no result, whatever the fuel. The bytes are NUL, 0xF8 to 0xFB, 0xFE, 0xFF, and the first
-- byte of a character that the text does not hold whole.
pub skip_utf8_stuck :
    (fuel n b : ℕ) (s : Bytes)
    → b < 256
    → (b ≡ 0)
      ⊎ ((0xF8 ≤ b) × (b < 0xFC))
      ⊎ (0xFE ≤ b)
      ⊎ ((k : ℕ) × (utf8_length b ≡ some k) × (length s + 1 < k))
    → skip_utf8 fuel (suc n) (b ∷ s) ≡ none
unfolding skip_utf8 next_utf8 utf8_length
skip_utf8_stuck fuel n b s small h = ground (arith, stuck_loop fuel n b s)
