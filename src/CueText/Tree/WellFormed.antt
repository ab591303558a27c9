-- ===== src/CueText/Tree/WellFormed.antt =====
-- The tree that src/libwebvtt/cuetext.c builds: the current node has a chain of parents up to the
-- head, and the stack of languages has an entry for each `lang` node on it.
use webvtt.Base.{
  ℕ, zero, suc, ◌+◌, ◌<◌, ◌≡◌, refl, sym, ◌∙◌, ap, none, some, List, [], ◌∷◌, ◌++◌, arith, length,
  get_elem?, if◌then◌else◌, length-append,
}
use webvtt.CueText.Tree.{
  NodeKind, head_node, Node, Tree, is_lang, add_child, attach_node, kind_at, parent_at,
}

length-add_child : (ns : List Node) (p c : ℕ) → length (add_child ns p c) ≡ length ns
unfolding add_child
length-add_child [] p c = refl
length-add_child (n ∷ ns) zero c = refl
length-add_child (n ∷ ns) (suc p) c = ap suc (length-add_child ns p c)

-- What attaching a node leaves as it was: a field other than `children`, at every old index.
module _ {X : Type 0} (f : Node → X) (d : X) where
  abbrev at_index : List Node → ℕ → X
  at_index ns i = elim (get_elem? ns i) [ none ↦ d | some n ↦ f n ]

  at_index-append :
      (ns : List Node) (x : Node) (i : ℕ)
      → i < length ns
      → at_index (ns ++ x ∷ []) i ≡ at_index ns i
  at_index-append [] x i h = absurd (omega arith)
  at_index-append (n ∷ ns) x zero h = refl
  at_index-append (n ∷ ns) x (suc i) h = at_index-append ns x i (omega arith)

  at_index_last : (ns : List Node) (x : Node) → at_index (ns ++ x ∷ []) (length ns) ≡ f x
  at_index_last [] x = refl
  at_index_last (n ∷ ns) x = at_index_last ns x

  module _ (same : (n : Node) (k : List ℕ) → f (record n { children = k }) ≡ f n) where
    at_index-add_child :
        (ns : List Node) (p c i : ℕ) → at_index (add_child ns p c) i ≡ at_index ns i
    unfolding add_child
    at_index-add_child [] p c i = refl
    at_index-add_child (n ∷ ns) zero c zero = same n _
    at_index-add_child (n ∷ ns) zero c (suc i) = refl
    at_index-add_child (n ∷ ns) (suc p) c zero = refl
    at_index-add_child (n ∷ ns) (suc p) c (suc i) = at_index-add_child ns p c i

    at_index_old :
        (t : Tree) (x : Node) (i : ℕ)
        → i < length t.nodes
        → at_index (attach_node t x) i ≡ at_index t.nodes i
    unfolding attach_node
    at_index_old t x i h =
        at_index-append (add_child t.nodes t.current (length t.nodes)) x i
          (omega (arith, length-add_child t.nodes t.current (length t.nodes)))
        ∙ at_index-add_child t.nodes t.current (length t.nodes) i

  at_index_new : (t : Tree) (x : Node) → at_index (attach_node t x) (length t.nodes) ≡ f x
  unfolding attach_node
  at_index_new t x =
      let ns = add_child t.nodes t.current (length t.nodes) in
      ap (at_index (ns ++ x ∷ [])) (sym (length-add_child t.nodes t.current (length t.nodes)))
      ∙ at_index_last ns x

pub length-attach_node : (t : Tree) (x : Node) → length (attach_node t x) ≡ length t.nodes + 1
unfolding attach_node
length-attach_node t x = omega (
  arith,
  length-append (add_child t.nodes t.current (length t.nodes)) (x ∷ []),
  length-add_child t.nodes t.current (length t.nodes),
)

module _ (t : Tree) (x : Node) where
  kind_old : (i : ℕ) → i < length t.nodes → kind_at (attach_node t x) i ≡ kind_at t.nodes i
  unfolding kind_at
  kind_old i h = at_index_old (λ n. n.kind) head_node (λ n k. refl) t x i h

  parent_old : (i : ℕ) → i < length t.nodes → parent_at (attach_node t x) i ≡ parent_at t.nodes i
  unfolding parent_at
  parent_old i h = at_index_old (λ n. n.parent) none (λ n k. refl) t x i h

  pub kind_new : kind_at (attach_node t x) (length t.nodes) ≡ x.kind
  unfolding kind_at
  kind_new = at_index_new (λ n. n.kind) head_node t x

  pub parent_new : parent_at (attach_node t x) (length t.nodes) ≡ x.parent
  unfolding parent_at
  parent_new = at_index_new (λ n. n.parent) none t x

abbrev pub weight : NodeKind → ℕ
weight k = if is_lang k then 1 else 0

-- From node `i` the parents lead to the head, and `n` nodes on the way are `lang` nodes.
pub data Chain (ns : List Node) : ℕ → ℕ → Type 0 where
  at_head : {i n : ℕ} → i ≡ 0 → 0 < length ns → kind_at ns 0 ≡ head_node → n ≡ 0 → Chain ns i n
  below :
      {i n : ℕ} (p m : ℕ)
      → i < length ns
      → p < i
      → parent_at ns i ≡ some p
      → n ≡ weight (kind_at ns i) + m
      → Chain ns p m
      → Chain ns i n

pub Chain-attach : (t : Tree) (x : Node) {i n : ℕ} → Chain t.nodes i n → Chain (attach_node t x) i n
Chain-attach t x (at_head e l k z) =
    at_head e (omega (arith, length-attach_node t x)) (kind_old t x 0 l ∙ k) z
Chain-attach t x (below {i} {n} p m l lt e w c) =
    below p m (omega (arith, length-attach_node t x)) lt (parent_old t x i l ∙ e)
      (rw (kind_old t x i l) w) (Chain-attach t x c)

pub Chain-lt : {ns : List Node} {i n : ℕ} → Chain ns i n → i < length ns
Chain-lt (at_head e l k z) = omega (arith, e)
Chain-lt (below p m l lt e w c) = l
