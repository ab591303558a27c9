-- ===== src/StringData.antt =====
-- src/libwebvtt/string.c and string_internal.h: the storage of a string, `grow`, and the operations
-- that write to it. `header` is `sizeof( webvtt_string_data )`, which the platform chooses.
-- A block has room for `alloc` bytes and one more, so the text with its NUL fits if its length is at
-- most `alloc`. A write that would not fit is `none`; so is a loop that has run out of fuel.
-- Memory does not run out.
pub mod Bounds
pub mod Lines
pub mod Replace
use webvtt.Base.{
  ℕ, zero, suc, ◌+◌, ◌-◌, ◌*◌, ◌/◌, ◌%◌, ◌^◌, Bool, true, false, not, ◌&&◌, ◌||◌, Option, none,
  some, [], ◌∷◌, ◌++◌, Bytes, ltb, leb, ◌==◌, if◌then◌else◌, length, take,
}

-- `webvtt_string_data`: `shared` is that the reference count is not 1, and `terminated` that a NUL
-- stands behind the text.
pub record StringData : Type 0 where
  pub alloc : ℕ
  pub shared : Bool
  pub terminated : Bool
  pub text : Bytes

-- `empty_string`, which has a reference of its own besides the new one.
abbrev pub init_string : StringData
init_string = record { alloc = 0; shared = true; terminated = true; text = [] }

-- A block is asked for by a 32-bit size; one that overflows, and so would be smaller than the string
-- takes it to be, is none.
abbrev pub create_string : ℕ → ℕ → Option StringData
create_string header alloc =
    if ltb (header + alloc) (2 ^ 32)
    then some (record { alloc = alloc; shared = false; terminated = true; text = [] })
    else none

unfoldable pub string_is_empty : StringData → Bool
string_is_empty str = length str.text == 0

-- The text is copied into a block that has as many bytes as the header and `alloc` have together, on 32
-- bits; the copy has no NUL yet.
unfoldable pub detach : ℕ → StringData → Option StringData
detach header str =
    if str.shared
    then (if leb (header + length str.text) ((header + str.alloc) % 2 ^ 32 + 1)
        then some (record str { shared = false; terminated = false })
        else none)
    else some str

abbrev page : ℕ
page = 0x1000

-- `do { n = n / 2; } while( n > grow )`.
halve_loop : ℕ → ℕ → ℕ → Option ℕ
halve_loop zero n grow = none
halve_loop (suc fuel) n grow =
    let again = halve_loop fuel (n / 2) grow in if ltb grow (n / 2) then again else some (n / 2)

-- `do { n = n * 2; } while ( n < grow )`, on 32 bits.
double_loop : ℕ → ℕ → ℕ → Option ℕ
double_loop zero n grow = none
double_loop (suc fuel) n grow =
    let twice = n * 2 % 2 ^ 32 in
    let again = double_loop fuel twice grow in if ltb twice grow then again else some twice

-- The size of the block that `grow` asks for.
unfoldable pub block_size : ℕ → Option ℕ
unfolding halve_loop double_loop
block_size grow =
    if ltb grow page
    then elim (halve_loop 13 page grow) [
      | none ↦ none
      | some n ↦ some (if ltb n 64 then 64 else n * 2)
    ]
    else double_loop 20 page grow

abbrev pub moved : ℕ → StringData → Option ℕ → Option StringData
moved header str none = none
moved header str (some n) =
    some (record str { alloc = n - header; shared = false; terminated = true })

unfoldable pub grow : ℕ → StringData → ℕ → Option StringData
unfolding block_size
grow header str need =
    if leb ((length str.text + need) % 2 ^ 32) str.alloc
    then some str
    else moved header str (block_size ((header + (length str.text + need)) % 2 ^ 32))

-- Bytes and a NUL written behind the text.
abbrev pub write_behind : Bytes → Option StringData → Option StringData
write_behind bytes none = none
write_behind bytes (some str) =
    if leb (length str.text + length bytes) str.alloc
    then some (record str { text = str.text ++ bytes; terminated = true })
    else none

unfoldable pub putc : ℕ → StringData → ℕ → Option StringData
unfolding grow detach
putc header str to_append = elim (detach header str) [
  | none ↦ none
  | some q ↦ write_behind (to_append ∷ []) (grow header q 1)
]

unfoldable pub append : ℕ → StringData → Bytes → Option StringData
unfolding grow
append header str buffer =
    if length buffer == 0
    then some str
    else write_behind buffer (grow header str (length str.text + length buffer))

abbrev pub append_string : ℕ → StringData → StringData → Option StringData
append_string header str other = append header str other.text

-- The text of `len` bytes; a negative `len` is none, and stands for `strlen`. The length is at most
-- that of the text.
text_of_length : ℕ → Bytes → Option ℕ → Option StringData
unfolding append
text_of_length header init_text none = append header init_string init_text
text_of_length header init_text (some len) = append header init_string (take len init_text)

-- Without a text the string is the empty one.
unfoldable pub create_string_with_text : ℕ → Option Bytes → Option ℕ → Option StringData
unfolding text_of_length
create_string_with_text header none len = some init_string
create_string_with_text header (some init_text) len = text_of_length header init_text len

-- A string that holds no data has no text, and length and capacity 0.
unfoldable pub string_text : Option StringData → Option Bytes
string_text none = none
string_text (some d) = some d.text

unfoldable pub string_length : Option StringData → ℕ
string_length none = 0
string_length (some d) = length d.text

unfoldable pub string_capacity : Option StringData → ℕ
string_capacity none = 0
string_capacity (some d) = d.alloc

-- The bytes up to a carriage return or a line feed, and what follows them.
unfoldable pub split_line : Bytes → Bytes × Bytes
split_line [] = ([], [])
split_line (c ∷ s) =
    let (line, rest) = split_line s in
    if c == b'\r' || c == b'\n' then ([], c ∷ s) else (c ∷ line, rest)

-- Whether a line has ended, the string, `*truncate` where it is given, and the text at `*pos`.
pub record Line : Type 0 where
  pub ended : Bool
  pub str : StringData
  pub truncate : Option ℕ
  pub rest : Bytes

-- `truncate && d->alloc >= WEBVTT_MAX_LINE`.
unfoldable pub too_long : Option ℕ → StringData → Bool
too_long none str = false
too_long (some n) str = leb 0x10000 str.alloc

abbrev pub one_more : Option ℕ → Option ℕ
one_more none = none
one_more (some n) = some (n + 1)

-- `memcpy` where there is something to copy and room for it.
abbrev pub copy_in : Bytes → Bytes → Bool → Option ℕ → Option StringData → Option Line
copy_in line rest ended truncate none = none
copy_in line rest ended truncate (some str) = some (record {
  ended = ended;
  str =
      if not (length line == 0) && ltb (length str.text + length line) str.alloc
      then record str { text = str.text ++ line; terminated = true }
      else str;
  truncate = truncate;
  rest = rest;
})

-- `webvtt_string_getline` on a string that has its data; the text is that from `*pos` up to `len`.
unfoldable pub getline : ℕ → StringData → Bytes → Option ℕ → Bool → Option Line
unfolding grow split_line too_long
getline header str s truncate finish =
    let (line, rest) = split_line s in
    let ended = not (length rest == 0) || finish in
    if leb str.alloc (length str.text + length line + 1)
    then (if too_long truncate str
        then copy_in line rest ended (one_more truncate) (some str)
        else copy_in line rest ended truncate (grow header str (length line + 1)))
    else copy_in line rest ended truncate (some str)
