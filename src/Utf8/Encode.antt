-- ===== src/Utf8/Encode.antt =====
-- The UTF-8 encoding form, and `webvtt_utf8_to_utf16` (src/libwebvtt/string.c) against it.
use webvtt.Base.{
  ℕ, ◌+◌, ◌-◌, ◌*◌, ◌/◌, ◌%◌, ◌≤◌, ◌<◌, ◌≡◌, Bool, ◌&&◌, ◌||◌, [], ◌∷◌, ◌++◌, arith, Bytes, ltb,
  leb, if◌then◌else◌,
}
use native.Mathlib.Decide.{dec_lt}
use webvtt.Utf8.{finish_utf16, Utf16, utf8_to_utf16}

-- The bytes of a code point, by the definition of the encoding form.
unfoldable pub encode : ℕ → Bytes
encode c =
    if ltb c 0x80
    then c ∷ []
    else if ltb c 0x800
    then (0xC0 + c / 64) ∷ (0x80 + c % 64) ∷ []
    else if ltb c 0x10000
    then (0xE0 + c / 4096) ∷ (0x80 + c / 64 % 64) ∷ (0x80 + c % 64) ∷ []
    else (0xF0 + c / 262144) ∷ (0x80 + c / 4096 % 64) ∷ (0x80 + c / 64 % 64) ∷ (0x80 + c % 64) ∷ []

-- The code points that no character has: U+FDD0 to U+FDEF, the last two of each plane, and the
-- surrogates.
abbrev pub is_refused : ℕ → Bool
is_refused c =
    (leb 0xFDD0 c && leb c 0xFDEF) || leb 0xFFFE (c % 0x10000) || (leb 0xD800 c && leb c 0xDFFF)

-- The UTF-16 code units of a code point, one or two, that `webvtt_utf8_to_utf16` should find.
abbrev pub to_utf16 : ℕ → Utf16
to_utf16 c =
    if is_refused c
    then record { unit = 0xFFFD; high_surrogate = 0 }
    else if ltb c 0x10000
    then record { unit = c; high_surrogate = 0 }
    else record {
      unit = 0xDC00 + (c - 0x10000) % 0x400;
      high_surrogate = 0xD800 + (c - 0x10000) / 0x400;
    }

encode_one : (c : ℕ) (rest : Bytes) → c < 0x80 → utf8_to_utf16 (encode c ++ rest) ≡ to_utf16 c
unfolding utf8_to_utf16 encode
encode_one c rest h = ground arith

encode_two :
    (c : ℕ) (rest : Bytes) → 0x80 ≤ c → c < 0x800 → utf8_to_utf16 (encode c ++ rest) ≡ to_utf16 c
unfolding utf8_to_utf16 encode
encode_two c rest l h = ground arith

encode_three :
    (c : ℕ) (rest : Bytes) → 0x800 ≤ c → c < 0x10000 → utf8_to_utf16 (encode c ++ rest) ≡ to_utf16 c
unfolding utf8_to_utf16 encode
encode_three c rest l h = ground arith

-- Three trailing bytes are all read.
inside_four :
    (a b d e : ℕ) (rest : Bytes)
    → a < 8
    → b < 64
    → d < 64
    → e < 64
    → utf8_to_utf16 ((0xF0 + a) ∷ (0x80 + b) ∷ (0x80 + d) ∷ (0x80 + e) ∷ rest)
      ≡ finish_utf16 (((a * 64 + b) * 64 + d) * 64 + e) 0x10000
unfolding utf8_to_utf16
inside_four a b d e rest ha hb hd he = ground arith

finish_four : (c : ℕ) → 0x10000 ≤ c → c < 0x110000 → finish_utf16 c 0x10000 ≡ to_utf16 c
unfolding finish_utf16
finish_four c l h = ground arith

encode_four :
    (c : ℕ) (rest : Bytes)
    → 0x10000 ≤ c
    → c < 0x110000
    → utf8_to_utf16 (encode c ++ rest) ≡ to_utf16 c
unfolding encode
encode_four c rest l h =
    let joined : ((c / 262144 * 64 + c / 4096 % 64) * 64 + c / 64 % 64) * 64 + c % 64 ≡ c =
      omega arith in
    ground (
      arith,
      inside_four (c / 262144) (c / 4096 % 64) (c / 64 % 64) (c % 64) rest,
      finish_four c l h,
      joined,
    )

-- Every code point below U+110000 is read back from its encoding, whatever follows it in the text:
-- as one code unit below U+10000, as a surrogate pair from there on, and as U+FFFD if it is a
-- surrogate, one of U+FDD0 to U+FDEF, or one of the last two of its plane.
pub utf8_to_utf16-encode :
    (c : ℕ) (rest : Bytes) → c < 0x110000 → utf8_to_utf16 (encode c ++ rest) ≡ to_utf16 c
utf8_to_utf16-encode c rest h = elim (dec_lt c 0x80) [
  | yes a ↦ encode_one c rest a
  | no a ↦ elim (dec_lt c 0x800) [
    | yes b ↦ encode_two c rest (omega arith) b
    | no b ↦ elim (dec_lt c 0x10000) [
      | yes d ↦ encode_three c rest (omega arith) d
      | no d ↦ encode_four c rest (omega arith) h
    ]
  ]
]
