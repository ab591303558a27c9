-- ===== src/StringData/Replace.antt =====
-- src/libwebvtt/string.c: `memmem`, `webvtt_string_replace` and `webvtt_string_replace_all`.
-- A read or write outside the block is `none`, as in `StringData`; so is a loop without fuel.
pub mod Nul
use webvtt.Base.{
  ℕ, zero, suc, ◌+◌, ◌-◌, Bool, true, false, not, ◌&&◌, ◌||◌, Option, none, some, [], ◌∷◌, ◌++◌,
  Bytes, ltb, leb, ◌==◌, if◌then◌else◌, length, peek, take, drop,
}
use webvtt.StringData.{StringData, grow}

later : Option ℕ → Option ℕ
later none = none
later (some i) = some (i + 1)

memchr : Bytes → ℕ → Option ℕ
unfolding later
memchr [] c = none
memchr (d ∷ l) c = if d == c then some 0 else later (memchr l c)

-- `memcmp( l, s, s_len ) == 0`, where `l` is long enough.
unfoldable pub starts_with : Bytes → Bytes → Bool
starts_with l [] = true
starts_with [] (d ∷ s) = false
starts_with (c ∷ l) (d ∷ s) = c == d && starts_with l s

-- The loop over the positions.
find_at : Bytes → Bytes → Option ℕ
unfolding later starts_with
find_at [] s = none
find_at (c ∷ l) s = if starts_with (c ∷ l) s then some 0 else later (find_at l s)

unfoldable pub memmem : Bytes → Bytes → Option ℕ
unfolding memchr find_at
memmem l s =
    if length l == 0 || length s == 0
    then none
    else if ltb (length l) (length s)
    then none
    else if length s == 1
    then memchr l (peek s)
    else find_at l s

-- The bytes from `pos` on make room. What is moved is counted from `pos`, so that a search text of
-- two bytes or more is read beyond the text, and it may be beyond the block.
exchange : Bytes → Bytes → ℕ → StringData → Option StringData
exchange search replacement pos str =
    let moves = not (length search == length replacement) && ltb (pos + 1) (length str.text) in
    if moves && ltb (str.alloc + 2) (length str.text + length search)
    then none
    else some (record str {
      text = take pos str.text ++ (replacement ++ drop (pos + length search) str.text);
      terminated = true;
    })

exchanged : Bytes → Bytes → ℕ → Option StringData → Option StringData
unfolding exchange
exchanged search replacement pos none = none
exchanged search replacement pos (some q) = exchange search replacement pos q

-- Whether there was something to replace, which the status 1 tells, and the string.
abbrev pub replaced : Option StringData → Option (Bool × StringData)
replaced none = none
replaced (some q) = some (true, q)

unfoldable pub string_replace : ℕ → StringData → Bytes → Bytes → Option (Bool × StringData)
unfolding memmem exchanged grow
string_replace header str search replacement = elim (memmem str.text search) [
  | none ↦ some (false, str)
  | some pos ↦ replaced (exchanged search replacement pos (grow header str (length replacement)))
]

-- The loop, with fuel.
unfoldable pub replace_all_loop : ℕ → ℕ → StringData → Bytes → Bytes → Option StringData
unfolding string_replace
replace_all_loop zero header str search replacement = none
replace_all_loop (suc fuel) header str search replacement =
    elim (string_replace header str search replacement) [
      | none ↦ none
      | some (found, q) ↦ elim found [
        | true ↦ replace_all_loop fuel header q search replacement
        | false ↦ some q
      ]
    ]

-- A round for each byte that the text has, and one more; the text that replaces is taken not to hold
-- the one that it replaces.
unfoldable pub string_replace_all : ℕ → StringData → Bytes → Bytes → Option StringData
unfolding replace_all_loop
string_replace_all header str search replacement =
    replace_all_loop (length str.text + 1) header str search replacement
