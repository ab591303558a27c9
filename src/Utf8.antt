-- ===== src/Utf8.antt =====
-- src/libwebvtt/string.c and string_internal.h: the UTF-8 routines.
-- A byte is a number below 256, so `( c & 0xE0 ) == 0xC0` is `c / 32 == 6`, and so on. A range from
-- a pointer to `end` is the list of its bytes; behind it a text has its NUL.
pub mod Encode
pub mod Walk
use webvtt.Base.{
  ℕ, zero, suc, ◌+◌, ◌-◌, ◌*◌, ◌/◌, ◌%◌, Bool, true, false, not, ◌&&◌, ◌||◌, Option, none, some, [],
  ◌∷◌, Bytes, ltb, leb, ◌==◌, if◌then◌else◌, peek, length, drop,
}

-- `( c & 0xC0 ) == 0x80`: a byte inside a character.
unfoldable pub is_trailing : ℕ → Bool
is_trailing c = c / 64 == 2

-- The length of the character that begins with the byte, where one does; `none` stands for -1.
unfoldable pub utf8_length : ℕ → Option ℕ
utf8_length ch =
    if ltb ch 0x80
    then some 1
    else if ch / 32 == 6
    then some 2
    else if ch / 16 == 14
    then some 3
    else if ch / 8 == 30
    then some 4
    else if ch / 2 == 126
    then some 5
    else none

-- The text behind the trailing bytes in front of it.
skip_trailing : Bytes → Bytes
unfolding is_trailing
skip_trailing [] = []
skip_trailing (c ∷ s) = if is_trailing c then skip_trailing s else c ∷ s

-- Whether `*begin` moves, and where to. A character that does not end in the range is not passed.
pass : Bytes → Option ℕ → Option Bytes
unfolding skip_trailing is_trailing
pass s (some c) = if leb c (length s) then some (drop c s) else none
pass [] none = none
pass (c ∷ s) none = if is_trailing c then some (skip_trailing s) else none

unfoldable pub next_utf8 : Bytes → Option Bytes
unfolding pass utf8_length
next_utf8 s = if peek s == 0 then none else pass s (utf8_length (peek s))

-- The loop of `webvtt_skip_utf8`, with fuel: the count that is left, and `*begin`; `none` if the
-- fuel has run out.
skip_loop : ℕ → ℕ → Bytes → Option (ℕ × Bytes)
unfolding next_utf8
skip_loop zero n_chars s = none
skip_loop (suc fuel) zero s = some (0, s)
skip_loop (suc fuel) (suc n) [] = some (suc n, [])
skip_loop (suc fuel) (suc n) (c ∷ s) = elim (next_utf8 (c ∷ s)) [
  | none ↦ skip_loop fuel (suc n) (c ∷ s)
  | some s' ↦ skip_loop fuel n s'
]

-- `*begin`, and whether the characters were all passed. The range is there (`end` is given).
unfoldable pub skip_utf8 : ℕ → ℕ → Bytes → Option (Bool × Bytes)
unfolding skip_loop
skip_utf8 fuel n_chars s = elim (skip_loop fuel n_chars s) [
  | none ↦ none
  | some (left, s') ↦ some (left == 0, s')
]

-- The count of characters up to the first byte that begins none. A last character may run out of
-- the range; each step drops a byte at least, so the length is fuel enough.
chcount_loop : ℕ → Bytes → ℕ
unfolding utf8_length
chcount_loop zero s = 0
chcount_loop (suc fuel) [] = 0
chcount_loop (suc fuel) (ch ∷ s) = elim (utf8_length ch) [
  | none ↦ 0
  | some c ↦ chcount_loop fuel (drop c (ch ∷ s)) + 1
]

unfoldable pub utf8_chcount : Bytes → ℕ
unfolding chcount_loop
utf8_chcount s = if peek s == 0 then 0 else chcount_loop (length s) s

-- `UTF_IS_NONCHAR`.
is_nonchar : ℕ → Bool
is_nonchar c = leb 0xFDD0 c && (leb c 0xFDEF || leb 0xFFFE (c % 0x10000)) && leb c 0x10FFFF

-- The return value, and `*high_surrogate` (which an empty range leaves as it was).
pub record Utf16 : Type 0 where
  pub unit : ℕ
  pub high_surrogate : ℕ

abbrev single : ℕ → Utf16
single c = record { unit = c; high_surrogate = 0 }

-- A character read to its end: `uc`, and the least value that is not overlong.
finish_utf16 : ℕ → ℕ → Utf16
unfolding is_nonchar
finish_utf16 uc min =
    if not (is_nonchar uc) && ltb 0xFFFF uc && ltb uc 0x110000
    then record { unit = uc % 0x400 + 0xDC00; high_surrogate = (uc / 0x400 + 0xD7C0) % 0x10000 }
    else if ltb uc min || (leb 0xD800 uc && leb uc 0xDFFF) || is_nonchar uc || leb 0x110000 uc
    then single 0xFFFD
    else single uc

-- The loop inside a character, `need` bytes before its end; bytes that are not trailing are passed
-- over.
inside : Bytes → ℕ → ℕ → ℕ → Utf16
unfolding is_trailing finish_utf16
inside [] need uc min = single 0
inside (ch ∷ s) need uc min =
    let more = inside s (need - 1) (uc * 64 + ch % 64) min in
    let stay = inside s need uc min in
    if not (is_trailing ch)
    then stay
    else if need == 1
    then finish_utf16 (uc * 64 + ch % 64) min
    else more

unfoldable pub utf8_to_utf16 : Bytes → Utf16
unfolding inside
utf8_to_utf16 [] = single 0
utf8_to_utf16 (ch ∷ s) =
    if is_trailing ch
    then single 0
    else if ltb ch 0x80
    then single ch
    else if ch / 32 == 6
    then inside s 1 (ch % 32) 0x80
    else if ch / 16 == 14
    then inside s 2 (ch % 16) 0x800
    else if ch / 8 == 30
    then inside s 3 (ch % 8) 0x10000
    else single 0xFFFD
