-- ===== src/Memory/Handles.antt =====
-- The operations that make new pointers. src/libwebvtt/string.c: `webvtt_init_string`,
-- `webvtt_create_string`, `webvtt_ref_string`, `webvtt_copy_string`, `webvtt_string_detach`,
-- `webvtt_create_stringlist`, `webvtt_copy_stringlist`, `webvtt_stringlist_push` and
-- `webvtt_stringlist_pop`; src/libwebvtt/node.c: `webvtt_ref_node`, `webvtt_init_node`, the routines
-- that create nodes, and `webvtt_attach_node`; src/libwebvtt/cue.c: `webvtt_create_cue` and
-- `webvtt_ref_cue`. The pointers that a routine stores in an argument are results here. Where the
-- source allocates an object before it copies pointers into it, the copies come first: neither
-- reads what the other writes.
pub mod Counted
pub mod Detach
pub mod Create
use webvtt.Base.{
  Bool, true, false, ℕ, zero, suc, ◌+◌, ◌-◌, Option, none, some, List, [], ◌∷◌, ◌++◌, ◌==◌,
  if◌then◌else◌, length, get_elem?, take,
}
use webvtt.Memory.{
  Kind, Pointer, InnerKind, lang, head_node, NodeData, Body, Block, Memory, string, stringlist,
  node, cue, null, at, no_data, text_data, timestamp, internal_data, string_data, list_data,
  node_data, cue_data, get, store, load, ref,
}
use webvtt.Memory.Release.{release, release_slot, release_string}
use webvtt.Parser.{Run, done, fault, ◌>>=◌, or_fault}
use webvtt.Status.{Status, success, invalid_param}
use webvtt.StringList.{Items, stringlist_push, stringlist_pop, attach_child}

-- `empty_string` and `empty_node`, each with the reference that it starts with.
abbrev pub empty_string : ℕ
empty_string = 0

abbrev pub empty_node : ℕ
empty_node = 1

abbrev pub statics : List Pointer
statics = at string empty_string ∷ at node empty_node ∷ []

abbrev pub initial : Memory
initial =
    some (record { refs = 1; body = string_data 0 [] })
    ∷ some (record { refs = 1; body = node_data null no_data })
    ∷ []

-- An object with one reference, behind the others.
abbrev pub create : Body → Memory → Memory
create b m = m ++ some (record { refs = 1; body = b }) ∷ []

-- `webvtt_ref_string`, `webvtt_ref_stringlist`, `webvtt_ref_node` and `webvtt_ref_cue`, at an object.
unfoldable pub add_reference : Kind → ℕ → Memory → Run Memory
add_reference k a m = do
  b ← load k a m
  refs ← ref b.refs
  done (store m a (some (record b { refs = refs })))

-- A pointer stored, and a reference for it; of a null pointer, null.
unfoldable pub copy : Pointer → Memory → Run Memory
unfolding add_reference
copy null m = done m
copy (at k a) m = add_reference k a m

abbrev pub init_string : Memory → Run Memory
init_string m = add_reference string empty_string m

-- The pointer to the string of which `left` becomes a copy.
abbrev pub copied : Pointer → Pointer
copied null = at string empty_string
copied (at k a) = at k a

unfoldable pub copy_string : Pointer → Memory → Run Memory
unfolding copy
copy_string right m = copy (copied right) m

-- The size of the block, `alloc` and the header, is taken to be below 2 ^ 32.
unfoldable pub create_string : ℕ → Memory → Pointer × Memory
create_string alloc m = (at string (length m), create (string_data alloc []) m)

-- A string whose data is shared gets data of its own.
unfoldable pub detach : ℕ → Memory → Run (Pointer × Memory)
unfolding release_string
detach a m = load string a m >>= λ q.
    if q.refs == 1
    then done (at string a, m)
    else (release_string a (create q.body m) >>= λ m'. done (at string (length m), m'))

unfoldable pub create_stringlist : Memory → Pointer × Memory
create_stringlist m =
    (at stringlist (length m), create (list_data (record { alloc = 0; items = [] })) m)

abbrev pub push_item : ℕ → Body → Run Body
push_item str (list_data list) =
    or_fault (stringlist_push list (at string str)) >>= λ l. done (list_data l)
push_item str _ = fault

-- The string is stored behind the others, and gets a reference.
unfoldable pub push : ℕ → ℕ → Memory → Run Memory
unfolding add_reference
push a str m = do
  b ← load stringlist a m
  body ← push_item str b.body
  add_reference string str (store m a (some (record b { body = body })))

-- `webvtt_release_string` at a slot.
unfoldable pub release_in_slot : Pointer → Memory → Run Memory
unfolding release_string
release_in_slot (at string a) m = release_string a m
release_in_slot null m = done m
release_in_slot _ m = fault

abbrev pub popped_item : Body → Option (Pointer × Body)
popped_item (list_data list) = elim (stringlist_pop list) [
  | none ↦ none
  | some (out, l) ↦ some (out, list_data l)
]
popped_item _ = none

-- The item is out of the list, is copied, and the reference of the list is released.
abbrev pub popped_out : ℕ → Block → Option (Pointer × Body) → Memory → Run (Option Pointer × Memory)
popped_out a b none m = done (none, m)
popped_out a b (some (out, body)) m = do
  m1 ← copy_string out (store m a (some (record b { body = body })))
  m2 ← release_in_slot out m1
  done (some (copied out), m2)

-- The last string, where there is one.
unfoldable pub pop : ℕ → Memory → Run (Option Pointer × Memory)
unfolding copy_string release_in_slot
pop a m = do b ← load stringlist a m; popped_out a b (popped_item b.body) m

abbrev pub is_empty_node : Pointer → Bool
is_empty_node (at node a) = a == empty_node
is_empty_node _ = false

-- A variable that does not hold `empty_node` yet gives up what it holds, and then does.
unfoldable pub init_node : ℕ → Pointer → Memory → Run (Pointer × Memory)
unfolding add_reference
init_node fuel p m =
    if is_empty_node p
    then done (p, m)
    else (release fuel p m >>= λ m1.
        add_reference node empty_node m1 >>= λ m2. done (at node empty_node, m2))

-- `webvtt_create_node`; the parent is not counted.
unfoldable pub create_node : Pointer → NodeData → Memory → Pointer × Memory
create_node parent d m = (at node (length m), create (node_data parent d) m)

unfoldable pub create_timestamp_node : Pointer → ℕ → Memory → Pointer × Memory
unfolding create_node
create_timestamp_node parent time_stamp m = create_node parent (timestamp time_stamp) m

unfoldable pub create_text_node : Pointer → Pointer → Memory → Run (Pointer × Memory)
unfolding copy_string create_node
create_text_node parent text m = do
  m' ← copy_string text m
  done (create_node parent (text_data (copied text)) m')

abbrev pub no_children : Items Pointer
no_children = record { alloc = 0; items = [] }

unfoldable pub create_internal_node :
    Pointer → InnerKind → Pointer → Pointer → Memory → Run (Pointer × Memory)
unfolding copy copy_string create_node
create_internal_node parent kind css_classes annotation m = do
  m1 ← copy css_classes m
  m2 ← copy_string annotation m1
  m3 ← init_string m2
  done (
      create_node parent
        (internal_data kind css_classes (at string empty_string) (copied annotation) no_children)
        m3)

abbrev pub with_lang : Pointer → Body → Run Body
with_lang language (node_data parent (internal_data k c l a children)) =
    done (node_data parent (internal_data k c language a children))
with_lang language _ = fault

-- The language that `webvtt_create_internal_node` has put into the node is released, and another
-- is stored.
unfoldable pub set_lang : Pointer → Pointer → Memory → Run Memory
unfolding release_in_slot copy_string
set_lang (at node a) language m = do
  m1 ← release_slot release_in_slot 1 a m
  m2 ← copy_string language m1
  b ← load node a m2
  body ← with_lang (copied language) b.body
  done (store m2 a (some (record b { body = body })))
set_lang _ language m = fault

unfoldable pub create_lang_node : Pointer → Pointer → Pointer → Memory → Run (Pointer × Memory)
unfolding create_internal_node release_string set_lang
create_lang_node parent css_classes language m = do
  m1 ← init_string m
  (n, m2) ← create_internal_node parent lang css_classes (at string empty_string) m1
  m3 ← release_string empty_string m2
  m4 ← set_lang n language m3
  done (n, m4)

unfoldable pub create_head_node : Memory → Run (Pointer × Memory)
unfolding create_internal_node release_string
create_head_node m = do
  m1 ← init_string m
  (head, m2) ← create_internal_node null head_node null (at string empty_string) m1
  m3 ← release_string empty_string m2
  done (head, m3)

abbrev pub attached : ℕ → Body → Option (Run Body)
attached child (node_data parent (internal_data k c l a children)) = some (
    or_fault (attach_child children (at node child)) >>= λ nd.
    done (node_data parent (internal_data k c l a nd)))
attached child (node_data parent no_data) = none
attached child (node_data parent (text_data null)) = none
attached child (node_data parent (text_data (at k a))) = some fault
attached child (node_data parent (timestamp zero)) = none
attached child (node_data parent (timestamp (suc t))) = some fault
attached child _ = some fault

-- A node becomes the last child of one that has `internal_data`, and gets a reference. The source tests
-- that member of the union for null whatever the kind is; the text or the time of a leaf that passes
-- the test is then used as a pointer to the data of an inner node, which is a fault.
unfoldable pub attach_node : ℕ → ℕ → Memory → Run (Status × Memory)
unfolding add_reference
attach_node parent to_attach m = load node parent m >>= λ b. elim (attached to_attach b.body) [
  | none ↦ done (invalid_param, m)
  | some r ↦ r >>= λ body.
      add_reference node to_attach (store m parent (some (record b { body = body }))) >>= λ m'.
      done (success, m')
]

-- `webvtt_create_cue`: its strings are the empty one, and it has no tree.
unfoldable pub create_cue : Memory → Run (Pointer × Memory)
unfolding add_reference
create_cue m = do
  m1 ← init_string m
  m2 ← init_string m1
  done (
    at cue (length m2),
    create (cue_data (at string empty_string) (at string empty_string) null) m2,
  )
