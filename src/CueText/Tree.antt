-- ===== src/CueText/Tree.antt =====
-- src/libwebvtt/cuetext.c: `webvtt_parse_cuetext`, with the routines of src/libwebvtt/node.c that it
-- calls. The nodes are a list, and a pointer to one is its index; the head is node 0. A node that is
-- created and released without being attached is never added. Nothing runs out of memory here.
mod WellFormed
pub mod Safe
use webvtt.Base.{
  ℕ, zero, suc, ◌+◌, Bool, true, false, not, ◌&&◌, ◌||◌, Option, none, some, List, [], ◌∷◌, ◌++◌,
  Bytes, codes, ◌==◌, if◌then◌else◌, length, get_elem?,
}
use webvtt.CueText.Tokenizer.{
  Token, start_token, end_token, time_stamp_token, text_token, tokenizer,
}
use webvtt.Status.{Status, success, invalid_tag_name}
use webvtt.Text.{str_equal}

-- `webvtt_node_kind`, the kinds that a node can have.
pub data NodeKind : Type 0 where
  class italic bold underline ruby ruby_text voice lang head_node text time_stamp : NodeKind

-- `webvtt_node`; the members of its union are all here, and the unused ones are empty.
pub record Node : Type 0 where
  pub kind : NodeKind
  pub parent : Option ℕ
  pub text : Bytes
  pub timestamp : ℕ
  pub annotation : Bytes
  pub lang : Bytes
  pub css_classes : List Bytes
  pub children : List ℕ

-- The variables of `webvtt_parse_cuetext`: `cue->node_head` and what it leads to, `current_node`,
-- `lang_stack` with its top first, and `kind`.
pub record Tree : Type 0 where
  pub nodes : List Node
  pub current : ℕ
  pub lang_stack : List Bytes
  pub kind : NodeKind

-- The kind of a tag of one letter. Another letter leaves `*kind` as it was.
letter_kind : ℕ → NodeKind → NodeKind
letter_kind c kind =
    if c == b'b'
    then bold
    else if c == b'i'
    then italic
    else if c == b'u'
    then underline
    else if c == b'c'
    then class
    else if c == b'v'
    then voice
    else kind

word_kind : Bytes → Option NodeKind
unfolding str_equal
word_kind tag_name =
    if str_equal tag_name (codes "ruby")
    then some ruby
    else if str_equal tag_name (codes "rt")
    then some ruby_text
    else if str_equal tag_name (codes "lang")
    then some lang
    else none

-- The status, and `*kind` as it is afterwards.
node_kind_from_tag_name : Bytes → NodeKind → Status × NodeKind
unfolding letter_kind word_kind
node_kind_from_tag_name (c ∷ []) kind = (success, letter_kind c kind)
node_kind_from_tag_name tag_name kind = elim (word_kind tag_name) [
  | some k ↦ (success, k)
  | none ↦ (invalid_tag_name, kind)
]

abbrev create_node : NodeKind → Option ℕ → Node
create_node kind parent = record {
  kind = kind;
  parent = parent;
  text = [];
  timestamp = 0;
  annotation = [];
  lang = [];
  css_classes = [];
  children = [];
}

abbrev create_internal_node : Option ℕ → NodeKind → List Bytes → Bytes → Node
create_internal_node parent kind css_classes annotation = record (create_node kind parent) {
  css_classes = css_classes;
  annotation = annotation;
}

abbrev create_lang_node : ℕ → List Bytes → Bytes → Node
create_lang_node parent css_classes language =
    record (create_internal_node (some parent) lang css_classes []) { lang = language }

pub is_lang : NodeKind → Bool
is_lang lang = true
is_lang _ = false

is_ruby : NodeKind → Bool
is_ruby ruby = true
is_ruby _ = false

is_ruby_text : NodeKind → Bool
is_ruby_text ruby_text = true
is_ruby_text _ = false

is_head : NodeKind → Bool
is_head head_node = true
is_head _ = false

-- `WEBVTT_IS_VALID_LEAF_NODE`.
is_leaf : NodeKind → Bool
is_leaf text = true
is_leaf time_stamp = true
is_leaf _ = false

start_node : Status × NodeKind → ℕ → List Bytes → Bytes → Option Node
unfolding is_lang
start_node (success, kind) parent css_classes annotations = some (
    if is_lang kind
    then create_lang_node parent css_classes annotations
    else create_internal_node (some parent) kind css_classes annotations)
start_node (_, kind) parent css_classes annotations = none

-- The node for a token, where there is one. `garbage` is what the local variable `kind` holds before
-- it is set.
create_node_from_token : NodeKind → Token → ℕ → Option Node
unfolding node_kind_from_tag_name start_node
create_node_from_token garbage (text_token t) parent =
    some (record (create_node text (some parent)) { text = t })
create_node_from_token garbage (start_token tag_name css_classes annotations) parent =
    start_node (node_kind_from_tag_name tag_name garbage) parent css_classes annotations
create_node_from_token garbage (time_stamp_token t) parent =
    some (record (create_node time_stamp (some parent)) { timestamp = t })
create_node_from_token garbage (end_token tag_name) parent = none

-- `nd->children[ nd->length++ ] = to_attach` at the node `parent`.
add_child : List Node → ℕ → ℕ → List Node
add_child [] parent child = []
add_child (n ∷ nodes) zero child = record n { children = n.children ++ child ∷ [] } ∷ nodes
add_child (n ∷ nodes) (suc parent) child = n ∷ add_child nodes parent child

-- The node is added, as a child of the current one.
pub attach_node : Tree → Node → List Node
unfolding add_child
attach_node t node = add_child t.nodes t.current (length t.nodes) ++ node ∷ []

pub kind_at : List Node → ℕ → NodeKind
kind_at nodes i = elim (get_elem? nodes i) [ none ↦ head_node | some n ↦ n.kind ]

pub parent_at : List Node → ℕ → Option ℕ
parent_at nodes i = elim (get_elem? nodes i) [ none ↦ none | some n ↦ n.parent ]

-- The language of the innermost open `lang` node goes to a node below it.
inherit_lang : List Bytes → Node → Node
inherit_lang [] node = node
inherit_lang (l ∷ stack) node = record node { lang = l }

-- A node that is not dropped: attached, and made the current node unless it is a leaf.
place_node : Tree → Node → Tree
unfolding attach_node inherit_lang is_leaf is_lang
place_node t node =
    if is_leaf node.kind
    then record t { nodes = attach_node t node }
    else if is_lang node.kind
    then record t {
      nodes = attach_node t node;
      current = length t.nodes;
      lang_stack = node.lang ∷ t.lang_stack;
    }
    else record t {
      nodes = attach_node t (inherit_lang t.lang_stack node);
      current = length t.nodes;
    }

-- The code of a kind, by which kinds are compared.
kind_code : NodeKind → ℕ
kind_code class = 0
kind_code italic = 1
kind_code bold = 2
kind_code underline = 3
kind_code ruby = 4
kind_code ruby_text = 5
kind_code voice = 6
kind_code lang = 7
kind_code head_node = 8
kind_code text = 0x80000100
kind_code time_stamp = 0x80000101

-- `current_node = current_node->parent`, and the language of a `lang` node is popped. `none` is a
-- fault: no parent, or a string that is released and was never set.
leave_node : Tree → NodeKind → Option ℕ → List Bytes → Option Tree
unfolding is_lang
leave_node t kind none stack = none
leave_node t kind (some parent) [] =
    if is_lang kind
    then none
    else some (record t { current = parent; kind = kind; lang_stack = [] })
leave_node t kind (some parent) (l ∷ stack) = some (record t {
  current = parent;
  kind = kind;
  lang_stack = if is_lang kind then stack else l ∷ stack;
})

-- An end tag: it closes the current node if that is of its kind, or is ruby text and the tag `ruby`.
end_node : Tree → Status × NodeKind → Option Tree
unfolding kind_at parent_at leave_node kind_code is_ruby is_ruby_text
end_node t (success, kind) =
    let at = kind_at t.nodes t.current in
    if kind_code at == kind_code kind || (is_ruby_text at && is_ruby kind)
    then leave_node t kind (parent_at t.nodes t.current) t.lang_stack
    else some (record t { kind = kind })
end_node t (_, kind) = some t

-- A token that is no end tag.
open_token : NodeKind → Token → Tree → Tree
unfolding create_node_from_token place_node kind_at is_ruby is_ruby_text
open_token garbage token t = elim (create_node_from_token garbage token t.current) [
  | none ↦ t
  | some node ↦
      if is_ruby_text node.kind && not (is_ruby (kind_at t.nodes t.current))
      then t
      else place_node t node
]

process_token : NodeKind → Token → Tree → Option Tree
unfolding end_node open_token is_head node_kind_from_tag_name
process_token garbage (end_token tag_name) t =
    if is_head (kind_at t.nodes t.current)
    then some t
    else end_node t (node_kind_from_tag_name tag_name t.kind)
process_token garbage (start_token n cs a) t = some (open_token garbage (start_token n cs a) t)
process_token garbage (time_stamp_token ts) t = some (open_token garbage (time_stamp_token ts) t)
process_token garbage (text_token s) t = some (open_token garbage (text_token s) t)

-- `garbage` gives the indeterminate value of `kind` in `webvtt_create_node_from_token`, for the call
-- with that text behind the token.
module _ (garbage : Bytes → NodeKind) where
  parse_loop : ℕ → Bytes → Tree → Option Tree
  unfolding process_token tokenizer
  parse_loop zero position t = none
  parse_loop (suc fuel) [] t = some t
  parse_loop (suc fuel) (c ∷ s) t = elim (tokenizer (c ∷ s)) [
    | none ↦ none
    | some (token, rest) ↦ elim (process_token (garbage rest) token t) [
      | none ↦ none
      | some t' ↦ parse_loop fuel rest t'
    ]
  ]

  -- A head node alone. The local `kind` is not set either.
  abbrev pub head_only : NodeKind → Tree
  head_only kind = record {
    nodes = create_internal_node none head_node [] [] ∷ [];
    current = 0;
    lang_stack = [];
    kind = kind;
  }

  -- The tree of a payload; `none` is a fault, or that the fuel has run out.
  unfoldable pub parse_cuetext : NodeKind → Bytes → Option Tree
  unfolding parse_loop
  parse_cuetext kind payload = parse_loop (length payload + 1) payload (head_only kind)
