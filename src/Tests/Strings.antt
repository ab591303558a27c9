-- ===== src/Tests/Strings.antt =====
-- The theorems on string storage and on lists of strings, at concrete inputs.
use webvtt.Base.{
  ℕ, ◌≤◌, ◌≡◌, refl, ◌⊎◌, true, false, not, ◌||◌, ◌==◌, none, some, [], ◌∷◌, ◌++◌, arith, Bytes,
  codes, All, length,
}
use webvtt.StringData.{
  StringData, init_string, create_string, create_string_with_text, block_size, putc, append, Line,
  getline, too_long,
}
use webvtt.StringData.Replace.{string_replace_all}
use webvtt.StringData.Replace.Nul.{nul, replacement, substitute, string_replace_all-nul}
use webvtt.StringData.Bounds.{Fits, IsSound, block_size-Fits, putc_total, append_total}
use webvtt.StringData.Lines.{AtEnd, IsInner, getline_keeps}
use webvtt.StringList.{
  Items, HasRoom, stringlist_push, stringlist_pop, attach_child, stringlist_push_total,
  attach_child_total, pop-push,
}

block_test : block_size 100 ≡ some 128
unfolding block_size
block_test = refl

putc_test :
    putc 32 init_string b'a'
    ≡ some (record { alloc = 32; shared = false; terminated = true; text = codes "a" })
unfolding putc
putc_test = refl

abbrev small_string : StringData
small_string = record { alloc = 0x100; shared = false; terminated = true; text = [] }

create_string_test : create_string 32 0x100 ≡ some small_string
create_string_test = refl

with_text_test :
    create_string_with_text 32 (some (codes "abc")) (some 2)
    ≡ some (record { alloc = 32; shared = false; terminated = true; text = codes "ab" })
unfolding create_string_with_text
with_text_test = refl

small_string-IsSound : IsSound small_string
small_string-IsSound = record { fits = omega arith; terminated = refl }

block_size-Fits_example : Fits 5000 (block_size 5000)
block_size-Fits_example = block_size-Fits 5000 (omega arith) (omega arith)

putc_total_example :
    (q : StringData) × (putc 32 init_string b'a' ≡ some q)
    × (q.text ≡ codes "a")
    × IsSound q
    × (q.shared ≡ false)
putc_total_example =
    putc_total 32 (omega arith) init_string b'a' (omega arith) (omega arith) (omega arith)

append_total_example :
    (q : StringData) × (append 32 small_string (codes "ab") ≡ some q)
    × (q.text ≡ codes "ab")
    × IsSound q
append_total_example =
    append_total 32 (omega arith) small_string (codes "ab") small_string-IsSound (omega arith)

abbrev two_lines : Bytes
two_lines = codes "one\ntwo"

getline_keeps_example :
    (r : Line) × (line : Bytes) × (getline 32 small_string two_lines none false ≡ some r)
    × (two_lines ≡ line ++ r.rest)
    × All IsInner line
    × AtEnd r.rest
    × (r.str.text ≡ line)
    × IsSound r.str
    × (r.truncate ≡ none)
    × (r.ended ≡ (not (length r.rest == 0) || false))
getline_keeps_example =
    getline_keeps 32 (omega arith) small_string two_lines none false small_string-IsSound
      (unfold too_long in refl) (omega arith)

abbrev two_items : Items ℕ
two_items = record { alloc = 8; items = 1 ∷ 2 ∷ [] }

two_items-HasRoom : HasRoom two_items
two_items-HasRoom = record { fits = omega arith; small = omega arith }

stringlist_push_total_example :
    (l : Items ℕ) × (stringlist_push two_items 3 ≡ some l)
    × (l.items ≡ 1 ∷ 2 ∷ 3 ∷ [])
    × (length l.items ≤ l.alloc)
    × (8 ≤ l.alloc)
    × ((l.alloc ≤ 16) ⊎ (l.alloc ≤ 16))
stringlist_push_total_example = stringlist_push_total two_items 3 two_items-HasRoom

attach_child_total_example :
    (l : Items ℕ) × (attach_child two_items 3 ≡ some l)
    × (l.items ≡ 1 ∷ 2 ∷ 3 ∷ [])
    × (length l.items ≤ l.alloc)
    × (8 ≤ l.alloc)
    × ((l.alloc ≤ 16) ⊎ (l.alloc ≤ 16))
attach_child_total_example = attach_child_total two_items 3 two_items-HasRoom

pop-push_example :
    stringlist_pop (record { alloc = 8; items = 1 ∷ 2 ∷ 3 ∷ [] }) ≡ some (3, two_items)
pop-push_example =
    pop-push two_items (record { alloc = 8; items = 1 ∷ 2 ∷ 3 ∷ [] }) 3
      (unfold stringlist_push in refl) two_items-HasRoom

-- A NUL in the middle of a line.
abbrev with_nul : StringData
with_nul = record { alloc = 100; text = 65 ∷ 0 ∷ 66 ∷ []; terminated = true; shared = false }

string_replace_all-nul_example :
    (q : StringData) × (string_replace_all 24 with_nul nul replacement ≡ some q)
    × (q.text ≡ substitute with_nul.text)
    × IsSound q
string_replace_all-nul_example =
    string_replace_all-nul 24 (omega arith) with_nul
      (record { fits = omega arith; terminated = refl }) (omega arith)
