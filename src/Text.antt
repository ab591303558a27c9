-- ===== src/Text.antt =====
-- src/libwebvtt/string_internal.h and string.c: the character classes, and the routines that walk
-- over a text.
use Prim.Native.Nat.{ℕ, ◌+◌}
use webvtt.Base.{
  Bool, true, false, Option, none, some, ◌&&◌, ◌||◌, [], ◌∷◌, Bytes, leb, ◌==◌, if◌then◌else◌,
}

unfoldable pub isalpha : ℕ → Bool
isalpha ch = (leb b'A' ch && leb ch b'Z') || (leb b'a' ch && leb ch b'z')

unfoldable pub isdigit : ℕ → Bool
isdigit ch = leb b'0' ch && leb ch b'9'

unfoldable pub isalphanum : ℕ → Bool
unfolding isalpha isdigit
isalphanum ch = isalpha ch || isdigit ch

unfoldable pub isspace : ℕ → Bool
isspace ch = ch == b'\r' || ch == b'\n' || ch == 0x0c || ch == b'\t' || ch == b' '

-- The word in front of the text, and the text behind it.
unfoldable pub collect_word : Bytes → Bytes × Bytes
unfolding isspace
collect_word [] = ([], [])
collect_word (c ∷ buffer) =
    let (out, rest) = collect_word buffer in if isspace c then ([], c ∷ buffer) else (c ∷ out, rest)

-- The number of white-space bytes in front of the text, and the text behind them.
unfoldable pub skip_whitespace : Bytes → ℕ × Bytes
unfolding isspace
skip_whitespace [] = (0, [])
skip_whitespace (c ∷ buffer) =
    let (i, rest) = skip_whitespace buffer in if isspace c then (i + 1, rest) else (0, c ∷ buffer)

-- `strcmp( a, b ) == 0`.
unfoldable pub str_equal : Bytes → Bytes → Bool
str_equal [] [] = true
str_equal (c ∷ a) (d ∷ b) = c == d && str_equal a b
str_equal _ _ = false

-- `strchr`: the text from the first byte `c` on.
unfoldable pub strchr : Bytes → ℕ → Option Bytes
strchr [] c = none
strchr (d ∷ s) c = if d == c then some (d ∷ s) else strchr s c
