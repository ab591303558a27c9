-- ===== src/Memory/Program.antt =====
-- A program that uses the objects: the pointers that its variables hold, and the operations of
-- Release.antt and Handles.antt on them. An operation takes pointers that a variable or a block
-- holds, and gives up only those of variables.
pub mod Steps
pub mod Lang
pub mod Operations
pub mod Changes
pub mod Pop
pub mod Reach
pub mod Rest
use webvtt.Base.{
  ℕ, ◌+◌, ◌<◌, ◌≡◌, ◌^◌, ◌-◌, Bool, true, false, ◌&&◌, Option, some, none, List, [], ◌∷◌, ◌==◌,
  if◌then◌else◌,
}
use webvtt.Memory.{
  InnerKind, Kind, Pointer, Body, Block, Memory, string, stringlist, node, cue, null, at, list_data,
  node_data, internal_data, get, same_kind,
}
use webvtt.Memory.Handles.{
  initial, statics, init_string, create_string, add_reference, detach, create_stringlist, push, pop,
  init_node, create_timestamp_node, create_text_node, create_internal_node, create_lang_node,
  create_head_node, attach_node, create_cue,
}
use webvtt.Memory.Release.{release}
use webvtt.Memory.Sums.{IsCounted, count, held, total, dead}
use webvtt.Parser.{Run, done, ◌>>=◌}
use webvtt.StringList.{Items, HasRoom, stringlist_pop}

pub record Program : Type 0 where
  pub memory : Memory
  pub owners : List Pointer

pub data Operation : Type 0 where
  new_empty_string : Operation
  new_string : ℕ → Operation
  new_list : Operation
  new_timestamp_node : Pointer → ℕ → Operation
  new_text_node : Pointer → ℕ → Operation
  new_internal_node : Pointer → InnerKind → Pointer → ℕ → Operation
  new_lang_node : Pointer → Pointer → ℕ → Operation
  new_head_node : Operation
  new_cue : Operation
  refer : Kind → ℕ → Operation
  drop : Kind → ℕ → Operation
  detach_string : ℕ → Operation
  push_string : ℕ → ℕ → Operation
  attach_child_node : ℕ → ℕ → Operation
  pop_string : ℕ → Operation
  init_node_variable : ℕ → Operation

abbrev pub leads : Kind → ℕ → Pointer → Bool
leads k a null = false
leads k a (at l c) = same_kind k l && (a == c)

-- The variables without one that holds the pointer.
unfoldable pub forget : Kind → ℕ → List Pointer → List Pointer
forget k a [] = []
forget k a (p ∷ ps) = if leads k a p then ps else p ∷ forget k a ps

abbrev pub holding : List Pointer → Pointer × Memory → Program
holding owners (p, m) = record { memory = m; owners = p ∷ owners }

abbrev pub holding_any : List Pointer → Option Pointer → Memory → Program
holding_any owners none m = record { memory = m; owners = owners }
holding_any owners (some p) m = record { memory = m; owners = p ∷ owners }

-- The fuel is more than the counts sum up to, which is enough for a release.
unfoldable pub perform : Operation → Program → Run Program
unfolding forget
perform new_empty_string s = do m ← init_string s.memory; done (holding s.owners (at string 0, m))
perform (new_string alloc) s = done (holding s.owners (create_string alloc s.memory))
perform new_list s = done (holding s.owners (create_stringlist s.memory))
perform (new_timestamp_node parent t) s =
    done (holding s.owners (create_timestamp_node parent t s.memory))
perform (new_text_node parent text) s = do
  r ← create_text_node parent (at string text) s.memory
  done (holding s.owners r)
perform (new_internal_node parent kind css_classes annotation) s = do
  r ← create_internal_node parent kind css_classes (at string annotation) s.memory
  done (holding s.owners r)
perform (new_lang_node parent css_classes language) s = do
  r ← create_lang_node parent css_classes (at string language) s.memory
  done (holding s.owners r)
perform new_head_node s = do r ← create_head_node s.memory; done (holding s.owners r)
perform new_cue s = do r ← create_cue s.memory; done (holding s.owners r)
perform (refer k a) s = do m ← add_reference k a s.memory; done (holding s.owners (at k a, m))
perform (drop k a) s = do
  m ← release (total s.memory + 1) (at k a) s.memory
  done (record { memory = m; owners = forget k a s.owners })
perform (detach_string a) s = do r ← detach a s.memory; done (holding (forget string a s.owners) r)
perform (push_string list str) s = do m ← push list str s.memory; done (record s { memory = m })
perform (attach_child_node parent child) s = do
  (_, m) ← attach_node parent child s.memory
  done (record s { memory = m })
perform (pop_string list) s = do (r, m) ← pop list s.memory; done (holding_any s.owners r m)
perform (init_node_variable a) s = do
  r ← init_node (total s.memory + 1) (at node a) s.memory
  done (holding (forget node a s.owners) r)

-- A pointer to the object is held by a variable, or by a variable or a block.
abbrev pub Owns : Program → Kind → ℕ → Type 0
Owns s k a = 0 < count k a s.owners

abbrev pub Points : Program → Kind → ℕ → Type 0
Points s k a = 0 < count k a s.owners + held k a s.memory

-- A list of classes may be missing.
abbrev pub PointsIfAny : Program → Pointer → Type 0
PointsIfAny s null = Unit
PointsIfAny s (at k a) = (k ≡ stringlist) × Points s stringlist a

-- The memory has a list with room in its array, or an inner node with room for a child.
abbrev pub HasList : Memory → ℕ → Type 0
HasList m a =
    (b : Block) × (list : Items Pointer) × (get m a ≡ some b)
    × (b.body ≡ list_data list)
    × HasRoom list

-- The memory has a list whose last item is a string.
abbrev pub HasItem : Memory → ℕ → Type 0
HasItem m a =
    (b : Block) × (list : Items Pointer) × (x : ℕ) × (l : Items Pointer) × (get m a ≡ some b)
    × (b.body ≡ list_data list)
    × (stringlist_pop list ≡ some (at string x, l))

abbrev pub HasInner : Memory → ℕ → Type 0
HasInner m a =
    (b : Block) × (up : Pointer) × (k : InnerKind) × (c : Pointer) × (l : Pointer) × (n : Pointer)
    × (nd : Items Pointer) × (get m a ≡ some b)
    × (b.body ≡ node_data up (internal_data k c l n nd))
    × HasRoom nd

-- What an operation is applied to. The size of the block of a string does not overflow.
abbrev pub IsLegal : Operation → Program → Type 0
IsLegal new_empty_string s = Unit
IsLegal (new_string alloc) s = alloc < 2 ^ 31
IsLegal new_list s = Unit
IsLegal (new_timestamp_node parent t) s = Unit
IsLegal (new_text_node parent text) s = Points s string text
IsLegal (new_internal_node parent kind css_classes annotation) s =
    PointsIfAny s css_classes × Points s string annotation
IsLegal (new_lang_node parent css_classes language) s =
    PointsIfAny s css_classes × Points s string language
IsLegal new_head_node s = Unit
IsLegal new_cue s = Unit
IsLegal (refer k a) s = Points s k a
IsLegal (drop k a) s = Owns s k a
IsLegal (detach_string a) s = Owns s string a
IsLegal (push_string list str) s = HasList s.memory list × Points s string str
IsLegal (attach_child_node parent child) s = HasInner s.memory parent × Points s node child
IsLegal (pop_string list) s = HasItem s.memory list
IsLegal (init_node_variable a) s = Owns s node a
