-- ===== src/CueText/Tree/Safe.antt =====
-- No token of src/libwebvtt/cuetext.c's parser leads to a fault, and the parser ends.
use webvtt.Base.{
  ℕ, zero, suc, ◌+◌, ◌<◌, ◌≡◌, refl, sym, ◌∙◌, true, false, not, ◌&&◌, ◌||◌, Bool-cases, inl, inr,
  Option, none, some, List, [], ◌∷◌, Bytes, arith, length, if◌then◌else◌, ◌==◌,
}
use webvtt.CueText.Tokenizer.{
  Token, start_token, end_token, time_stamp_token, text_token, tokenizer,
}
use webvtt.CueText.Tokenizer.Consume.{tokenizer_total}
use webvtt.CueText.Tree.WellFormed.{
  weight, Chain, at_head, below, Chain-attach, Chain-lt, length-attach_node, kind_new, parent_new,
}
use webvtt.CueText.Tree.{
  NodeKind, lang, ruby, ruby_text, head_node, Node, Tree, is_lang, is_leaf, is_head, is_ruby,
  is_ruby_text, attach_node, kind_at, parent_at, inherit_lang, place_node, create_node_from_token,
  start_node, node_kind_from_tag_name, leave_node, end_node, open_token, process_token, parse_loop,
  head_only, parse_cuetext, kind_code,
}
use webvtt.Status.{Status, success}

-- The current node hangs below the head, and the languages on the stack are as many as the `lang`
-- nodes that are open.
abbrev pub IsWellFormed : Tree → Type 0
IsWellFormed t = Chain t.nodes t.current (length t.lang_stack)

-- The new node becomes the current one.
Chain-new :
    (t : Tree) (x : Node) (n : ℕ)
    → IsWellFormed t
    → x.parent ≡ some t.current
    → n ≡ weight x.kind + length t.lang_stack
    → Chain (attach_node t x) (length t.nodes) n
Chain-new t x n w e c =
    below t.current (length t.lang_stack) (omega (arith, length-attach_node t x)) (Chain-lt w)
      (parent_new t x ∙ e) (rw (kind_new t x) c) (Chain-attach t x w)

inherit-parent : (ls : List Bytes) (x : Node) → (inherit_lang ls x).parent ≡ x.parent
unfolding inherit_lang
inherit-parent [] x = refl
inherit-parent (l ∷ ls) x = refl

inherit-kind : (ls : List Bytes) (x : Node) → (inherit_lang ls x).kind ≡ x.kind
unfolding inherit_lang
inherit-kind [] x = refl
inherit-kind (l ∷ ls) x = refl

place_node-IsWellFormed :
    (t : Tree) (x : Node)
    → IsWellFormed t
    → x.parent ≡ some t.current
    → IsWellFormed (place_node t x)
unfolding place_node
place_node-IsWellFormed t x w e = elim (Bool-cases (is_leaf x.kind)) [
  | inl leaf ↦ rw leaf (Chain-attach t x w)
  | inr inner ↦ rw inner (elim (Bool-cases (is_lang x.kind)) [
    | inl yes_lang ↦ rw yes_lang (Chain-new t x _ w e (rw yes_lang (omega arith)))
    | inr no_lang ↦
        let y = inherit_lang t.lang_stack x in
        rw no_lang (
          Chain-new t y _ w (inherit-parent t.lang_stack x ∙ e)
            (rw (inherit-kind t.lang_stack x, no_lang) (omega arith)))
  ])
]

start_node-parent :
    (s : Status × NodeKind) (p : ℕ) (cs : List Bytes) (a : Bytes) (x : Node)
    → start_node s p cs a ≡ some x
    → x.parent ≡ some p
unfolding start_node
start_node-parent (s, k) p cs a x h = ground arith

create_node_from_token-parent :
    (g : NodeKind) (token : Token) (p : ℕ) (x : Node)
    → create_node_from_token g token p ≡ some x
    → x.parent ≡ some p
create_node_from_token-parent g (text_token s) p x h = unfold create_node_from_token in ground arith
create_node_from_token-parent g (time_stamp_token s) p x h =
    unfold create_node_from_token in ground arith
create_node_from_token-parent g (start_token n cs a) p x h =
    start_node-parent (node_kind_from_tag_name n g) p cs a x (unfold create_node_from_token in h)
create_node_from_token-parent g (end_token n) p x h = unfold create_node_from_token in cc

open_token-IsWellFormed :
    (g : NodeKind) (token : Token) (t : Tree) → IsWellFormed t → IsWellFormed (open_token g token t)
unfolding open_token
open_token-IsWellFormed g token t w =
    created (create_node_from_token g token t.current)
      (create_node_from_token-parent g token t.current)
  where
    created :
        (o : Option Node)
        → ((x : Node) → o ≡ some x → x.parent ≡ some t.current)
        → IsWellFormed (elim o [
          | none ↦ t
          | some node ↦
              if is_ruby_text node.kind && not (is_ruby (kind_at t.nodes t.current))
              then t
              else place_node t node
        ])
    created none e = w
    created (some x) e =
        elim (Bool-cases (is_ruby_text x.kind && not (is_ruby (kind_at t.nodes t.current)))) [
          | inl dropped ↦ rw dropped w
          | inr kept ↦ rw kept (place_node-IsWellFormed t x w (e x refl))
        ]

abbrev Held : Option Tree → Type 0
Held none = ⊥
Held (some t) = IsWellFormed t

weight_code : (k : NodeKind) → weight k ≡ (if kind_code k == 7 then 1 else 0)
unfolding is_lang kind_code
weight_code lang = refl
weight_code _ = refl

weight_ruby_text : (k : NodeKind) → is_ruby_text k ≡ true → weight k ≡ 0
unfolding is_ruby_text is_lang
weight_ruby_text ruby_text h = refl
weight_ruby_text lang h = cc
weight_ruby_text _ h = ground arith

weight_ruby : (k : NodeKind) → is_ruby k ≡ true → weight k ≡ 0
unfolding is_ruby is_lang
weight_ruby ruby h = refl
weight_ruby lang h = cc
weight_ruby _ h = ground arith

-- The kinds that an end tag closes are `lang` together or not at all.
closes-weight :
    (a k : NodeKind)
    → (kind_code a == kind_code k || (is_ruby_text a && is_ruby k)) ≡ true
    → weight a ≡ weight k
closes-weight a k h = elim (Bool-cases (kind_code a == kind_code k)) [
  | inl same ↦ weight_code a ∙ ground arith ∙ sym (weight_code k)
  | inr other ↦ weight_ruby_text a (ground arith) ∙ sym (weight_ruby k (ground arith))
]

leave_node-Held :
    (t : Tree) (kind : NodeKind) (p m : ℕ) (stack : List Bytes)
    → length stack ≡ weight kind + m
    → Chain t.nodes p m
    → Held (leave_node t kind (some p) stack)
unfolding leave_node
leave_node-Held t kind p m [] e c = elim (Bool-cases (is_lang kind)) [
  | inl l ↦ absurd (ground arith)
  | inr n ↦ rw n (let z : m ≡ 0 = ground arith in rw z at c)
]
leave_node-Held t kind p m (l ∷ stack) e c = elim (Bool-cases (is_lang kind)) [
  | inl y ↦ rw y (let z : m ≡ length stack = ground arith in rw z at c)
  | inr n ↦ rw n (let z : m ≡ suc (length stack) = ground arith in rw z at c)
]

head-is_head : {k : NodeKind} → k ≡ head_node → is_head k ≡ true
unfolding is_head
head-is_head e = rw e refl

-- A current node that is no head has a parent.
Chain-parent :
    (ns : List Node) {i n : ℕ}
    → Chain ns i n
    → is_head (kind_at ns i) ≡ false
    → (p : ℕ) × (m : ℕ) × (parent_at ns i ≡ some p) × (n ≡ weight (kind_at ns i) + m) × Chain ns p m
Chain-parent ns (at_head e l k z) h = absurd (unfold is_head in ground (arith, head-is_head k, e))
Chain-parent ns (below p m l lt e w c) h = (p, m, e, w, c)

end_node-Held :
    (t : Tree) (s : Status × NodeKind)
    → IsWellFormed t
    → is_head (kind_at t.nodes t.current) ≡ false
    → Held (end_node t s)
unfolding end_node
end_node-Held t (success, kind) w h =
    let a = kind_at t.nodes t.current in
    elim (Bool-cases (kind_code a == kind_code kind || (is_ruby_text a && is_ruby kind))) [
      | inr other ↦ rw other w
      | inl closes ↦
          let (p, m, e, count, c) = Chain-parent t.nodes w h in
          rw (closes, e)
            (leave_node-Held t kind p m t.lang_stack (rw (← closes-weight a kind closes) count) c)
    ]
end_node-Held t (_, kind) w h = w

process_token-Held :
    (g : NodeKind) (token : Token) (t : Tree) → IsWellFormed t → Held (process_token g token t)
unfolding process_token
process_token-Held g (end_token n) t w = elim (Bool-cases (is_head (kind_at t.nodes t.current))) [
  | inl at ↦ rw at w
  | inr inside ↦ rw inside (end_node-Held t (node_kind_from_tag_name n t.kind) w inside)
]
process_token-Held g (start_token n cs a) t w = open_token-IsWellFormed g (start_token n cs a) t w
process_token-Held g (time_stamp_token s) t w = open_token-IsWellFormed g (time_stamp_token s) t w
process_token-Held g (text_token s) t w = open_token-IsWellFormed g (text_token s) t w

Held-some : (o : Option Tree) → Held o → (t : Tree) × (o ≡ some t) × IsWellFormed t
Held-some none h = absurd h
Held-some (some t) h = (t, refl, h)

parse_step :
    (garbage : Bytes → NodeKind) (fuel c : ℕ) (s rest : Bytes) (t t1 : Tree) (token : Token)
    → tokenizer (c ∷ s) ≡ some (token, rest)
    → process_token (garbage rest) token t ≡ some t1
    → parse_loop garbage (suc fuel) (c ∷ s) t ≡ parse_loop garbage fuel rest t1
unfolding parse_loop
parse_step garbage fuel c s rest t t1 token e e1 = ground (arith, e, e1)

parse_loop_total :
    (garbage : Bytes → NodeKind) (fuel : ℕ) (s : Bytes) (t : Tree)
    → length s < fuel
    → IsWellFormed t
    → (t' : Tree) × (parse_loop garbage fuel s t ≡ some t') × IsWellFormed t'
parse_loop_total garbage zero s t f w = absurd (omega arith)
parse_loop_total garbage (suc fuel) [] t f w = (t, unfold parse_loop in refl, w)
parse_loop_total garbage (suc fuel) (c ∷ s) t f w =
    let (token, rest, e, le) = tokenizer_total c s in
    let (t1, e1, w1) = Held-some _ (process_token-Held (garbage rest) token t w) in
    let (t', e', w') = parse_loop_total garbage fuel rest t1 (omega arith) w1 in
    (t', parse_step garbage fuel c s rest t t1 token e e1 ∙ e', w')

-- Every payload has a tree: the parser of cue text ends, never follows a missing parent and never
-- releases a language that it did not pop. At the end the current node hangs below the head, with a
-- language on the stack for each `lang` node that is still open. The values that the locals `kind`
-- hold before they are set do not matter for this.
pub parse_cuetext_total :
    (garbage : Bytes → NodeKind) (kind : NodeKind) (payload : Bytes)
    → (t : Tree) × (parse_cuetext garbage kind payload ≡ some t) × IsWellFormed t
unfolding parse_cuetext kind_at
parse_cuetext_total garbage kind payload =
    parse_loop_total garbage (length payload + 1) payload (head_only garbage kind) (omega arith)
      (at_head refl (omega arith) refl refl)
