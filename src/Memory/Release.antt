-- ===== src/Memory/Release.antt =====
-- src/libwebvtt/string.c: `webvtt_release_string` and `webvtt_release_stringlist`;
-- src/libwebvtt/node.c: `webvtt_release_node`; src/libwebvtt/cue.c: `webvtt_release_cue`. The pointer
-- is passed by its value: that the variable or slot it came from is set to null is part of the
-- caller, which does it before the call (the source does it there for strings and cues, and after
-- the call for lists and nodes; nothing reads the slot of a block whose count is zero in between).
-- The routines call one another at the pointers of a block, so the calls are passed as a function, and
-- `release` counts their depth by fuel: more than the sum of all counts is enough.
pub mod Contents
pub mod Loop
pub mod Total
use webvtt.Base.{
  ℕ, zero, suc, ◌+◌, ◌==◌, if◌then◌else◌, none, some, [], length, get_elem?, List, ◌∷◌,
}
use webvtt.Memory.{
  Kind, Pointer, NodeData, Body, Block, Memory, string, stringlist, node, cue, null, at, no_data,
  text_data, timestamp, internal_data, string_data, list_data, node_data, cue_data, slots,
  node_slots, get, store, load, deref,
}
use webvtt.Parser.{Run, done, out_of_fuel, ◌>>=◌, or_fault}
use webvtt.StringList.{Items}

abbrev pub Release : Type 0
Release = Pointer → Memory → Run Memory

-- A write of null; none where there is no such place.
abbrev pub clear_item : ℕ → List Pointer → List Pointer
clear_item i [] = []
clear_item zero (p ∷ ps) = null ∷ ps
clear_item (suc i) (p ∷ ps) = p ∷ clear_item i ps

abbrev pub clear_items : ℕ → Items Pointer → Items Pointer
clear_items i list = record list { items = clear_item i list.items }

-- The slot at an index of `node_slots` is set to null.
abbrev pub clear_node : ℕ → NodeData → NodeData
clear_node i no_data = no_data
clear_node zero (text_data text) = text_data null
clear_node (suc i) (text_data text) = text_data text
clear_node i (timestamp t) = timestamp t
clear_node zero (internal_data k c l a children) = internal_data k null l a children
clear_node (suc zero) (internal_data k c l a children) = internal_data k c null a children
clear_node (suc (suc zero)) (internal_data k c l a children) = internal_data k c l null children
clear_node (suc (suc (suc i))) (internal_data k c l a children) =
    internal_data k c l a (clear_items i children)

abbrev pub clear : ℕ → Body → Body
clear i (string_data alloc text) = string_data alloc text
clear i (list_data list) = list_data (clear_items i list)
clear i (node_data parent d) = node_data parent (clear_node i d)
clear zero (cue_data id text head) = cue_data null text head
clear (suc zero) (cue_data id text head) = cue_data id null head
clear (suc (suc zero)) (cue_data id text head) = cue_data id text null
clear (suc (suc (suc i))) (cue_data id text head) = cue_data id text head

-- One slot of the block at `a` is set to null, and what it held is released.
unfoldable pub release_slot : Release → ℕ → ℕ → Memory → Run Memory
release_slot rel i a m = do
  b ← or_fault (get m a)
  p ← or_fault (get_elem? (slots b.body) i)
  rel p (store m a (some (record b { body = clear i b.body })))

-- `n` slots, from the slot at `i` on.
unfoldable pub release_slots : Release → ℕ → ℕ → ℕ → Memory → Run Memory
release_slots rel zero i a m = done m
release_slots rel (suc n) i a m = release_slot rel i a m >>= λ m'. release_slots rel n (i + 1) a m'

-- The count goes down; where it reaches zero the contents are released, and then the block is freed.
abbrev pub dropped : (Body → ℕ → Memory → Run Memory) → ℕ → Block → Memory → ℕ → Run Memory
dropped contents a b m refs =
    if refs == 0
    then (contents b.body a (store m a (some (record b { refs = 0 }))) >>= λ m'.
        done (store m' a none))
    else done (store m a (some (record b { refs = refs })))

unfoldable pub drop_reference : Kind → (Body → ℕ → Memory → Run Memory) → ℕ → Memory → Run Memory
drop_reference k contents a m = do b ← load k a m; refs ← deref b.refs; dropped contents a b m refs

unfoldable pub release_string : ℕ → Memory → Run Memory
release_string = drop_reference string (λ _ _ m. done m)

-- `for( i = 0; i < l->length; i++ ) webvtt_release_string( &l->items[ i ] )`.
unfoldable pub release_items : Release → Body → ℕ → Memory → Run Memory
release_items rel (list_data list) a m = release_slots rel (length list.items) 0 a m
release_items rel _ a m = done m

unfoldable pub release_stringlist : Release → ℕ → Memory → Run Memory
unfolding release_items
release_stringlist rel = drop_reference stringlist (release_items rel)

-- The text of a text node; the classes, language, annotation and children of a node of an inner kind.
unfoldable pub release_node_data : Release → Body → ℕ → Memory → Run Memory
release_node_data rel (node_data parent (text_data text)) a m = release_slot rel 0 a m
release_node_data rel (node_data parent (internal_data k css_classes language annotation children))
      a m =
    do
      m1 ← release_slot rel 0 a m
      m2 ← release_slot rel 1 a m1
      m3 ← release_slot rel 2 a m2
      release_slots rel (length children.items) 3 a m3
release_node_data rel _ a m = done m

unfoldable pub release_node : Release → ℕ → Memory → Run Memory
unfolding release_node_data
release_node rel = drop_reference node (release_node_data rel)

-- The id, the body and the tree of a cue.
unfoldable pub release_cue_data : Release → Body → ℕ → Memory → Run Memory
release_cue_data rel (cue_data id text head) a m = do
  m1 ← release_slot rel 0 a m
  m2 ← release_slot rel 1 a m1
  release_slot rel 2 a m2
release_cue_data rel _ a m = done m

unfoldable pub release_cue : Release → ℕ → Memory → Run Memory
unfolding release_cue_data
release_cue rel = drop_reference cue (release_cue_data rel)

-- The routine for the type of the pointer; a null pointer is left alone by all of them.
unfoldable pub release : ℕ → Release
release zero p m = out_of_fuel
release (suc fuel) null m = done m
release (suc fuel) (at string a) m = release_string a m
release (suc fuel) (at stringlist a) m = release_stringlist (release fuel) a m
release (suc fuel) (at node a) m = release_node (release fuel) a m
release (suc fuel) (at cue a) m = release_cue (release fuel) a m
