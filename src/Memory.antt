-- ===== src/Memory.antt =====
-- include/webvtt/util.h, and the objects of src/libwebvtt/string.c, node.c and cue.c that count their
-- references: the blocks that hold them, and who points to whom. A pointer is an address with the
-- kind of object that its type in the source gives it. An object stands with the arrays that belong
-- to it alone: `items` with a list, `internal_data` and `children` with a node. A block that is freed
-- leaves an empty cell, and its address is not given out again, so that each use of a stale pointer
-- is a fault. Memory does not run out. The children hold the operations.
pub mod Sums
pub mod Release
pub mod Handles
pub mod Program
pub mod Token
pub mod Allocator
use webvtt.Base.{
  ℕ, zero, suc, ◌+◌, ◌-◌, ◌^◌, ◌≡◌, Bool, true, false, ◌&&◌, Option, none, some, List, [], ◌∷◌,
  Bytes, ltb, ◌==◌, if◌then◌else◌,
}
use webvtt.Parser.{Run, done, fault}
use webvtt.StringList.{Items}

pub data Kind : Type 0 where
  string stringlist node cue : Kind

pub data Pointer : Type 0 where
  null : Pointer
  at : Kind → ℕ → Pointer

-- `webvtt_node_kind` where WEBVTT_IS_VALID_INTERNAL_NODE is true of it.
pub data InnerKind : Type 0 where
  class italic bold underline ruby ruby_text voice lang head_node : InnerKind

-- `kind` of a `webvtt_node` with its union, which the kind chooses: WEBVTT_TEXT, WEBVTT_TIME_STAMP, an
-- inner kind, or WEBVTT_EMPTY_NODE (`no_data`). The routines that create nodes leave no other pairs,
-- since `webvtt_create_internal_node` is taken to be called with an inner kind: its callers in
-- node.c and cuetext.c name one, or pass on the `kind` that `webvtt_node_kind_from_tag_name` sets (a
-- letter for which it sets none is left out here). So a function by clauses on this type makes the
-- source's tests of `kind`.
pub data NodeData : Type 0 where
  no_data : NodeData
  text_data : Pointer → NodeData
  timestamp : ℕ → NodeData
  internal_data : InnerKind → Pointer → Pointer → Pointer → Items Pointer → NodeData

-- What a block holds behind its count: `webvtt_string_data`, `webvtt_stringlist`, `webvtt_node` with
-- `parent`, which is not counted, and the counted members of `webvtt_cue`.
pub data Body : Type 0 where
  string_data : ℕ → Bytes → Body
  list_data : Items Pointer → Body
  node_data : Pointer → NodeData → Body
  cue_data : Pointer → Pointer → Pointer → Body

pub record Block : Type 0 where
  pub refs : ℕ
  pub body : Body

-- The cell at an address is its place in the list.
abbrev pub Memory : Type 0
Memory = List (Option Block)

abbrev pub kind_of : Body → Kind
kind_of (string_data _ _) = string
kind_of (list_data _) = stringlist
kind_of (node_data _ _) = node
kind_of (cue_data _ _ _) = cue

abbrev pub same_kind : Kind → Kind → Bool
same_kind string string = true
same_kind stringlist stringlist = true
same_kind node node = true
same_kind cue cue = true
same_kind _ _ = false

-- The counted pointers of a node, in the order in which `webvtt_release_node` reads them.
abbrev pub node_slots : NodeData → List Pointer
node_slots no_data = []
node_slots (text_data text) = text ∷ []
node_slots (timestamp _) = []
node_slots (internal_data _ css_classes language annotation children) =
    css_classes ∷ language ∷ annotation ∷ children.items

abbrev pub slots : Body → List Pointer
slots (string_data _ _) = []
slots (list_data list) = list.items
slots (node_data _ d) = node_slots d
slots (cue_data id text node_head) = id ∷ text ∷ node_head ∷ []

abbrev pub get : Memory → ℕ → Option Block
get [] a = none
get (c ∷ m) zero = c
get (c ∷ m) (suc a) = get m a

abbrev pub store : Memory → ℕ → Option Block → Memory
store [] a c = []
store (_ ∷ m) zero c = c ∷ m
store (d ∷ m) (suc a) c = d ∷ store m a c

-- The block that a pointer of this kind leads to. A stale pointer is a fault, and so is a block of
-- another kind.
abbrev pub of_kind : Kind → Block → Run Block
of_kind k b = if same_kind k (kind_of b.body) then done b else fault

abbrev pub load_cell : Kind → Option Block → Run Block
load_cell k none = fault
load_cell k (some b) = of_kind k b

abbrev pub load : Kind → ℕ → Memory → Run Block
load k a m = load_cell k (get m a)

-- `webvtt_ref`: a count is an `int`, and one that overflows is a fault.
abbrev pub ref : ℕ → Run ℕ
ref value = if ltb value (2 ^ 31 - 1) then done (value + 1) else fault

-- `webvtt_deref`; one below zero is a fault.
abbrev pub deref : ℕ → Run ℕ
deref zero = fault
deref (suc value) = done value
