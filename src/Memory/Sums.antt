-- ===== src/Memory/Sums.antt =====
-- The counts of src/libwebvtt against the pointers that there are: sums over all blocks, what a
-- write to one cell does to them, and the invariant that each count is the number of its pointers.
use webvtt.Base.{
  length, ℕ, zero, suc, ◌+◌, ◌≡◌, ◌≢◌, refl, sym, ap, subst, ◌∙◌, true, ◌&&◌, Option, none, some,
  List, [], ◌∷◌, ◌++◌, arith, ◌==◌, if◌then◌else◌,
}
use native.Mathlib.Decide.{ℕ_discrete}
use webvtt.Memory.{
  Kind, Pointer, Body, Block, Memory, same_kind, kind_of, slots, get, store, null, at,
}

-- 1 if the pointer leads to the object.
abbrev pub tally : Kind → ℕ → Pointer → ℕ
tally k a null = 0
tally k a (at l c) = if same_kind k l && (a == c) then 1 else 0

abbrev pub count : Kind → ℕ → List Pointer → ℕ
count k a [] = 0
count k a (p ∷ ps) = tally k a p + count k a ps

module _ (f : Block → ℕ) where
  abbrev pub in_cell : Option Block → ℕ
  in_cell none = 0
  in_cell (some b) = f b

  unfoldable pub sum : Memory → ℕ
  sum [] = 0
  sum (c ∷ m) = in_cell c + sum m

  pub sum-store :
      (m : Memory) (a : ℕ) (c : Option Block) {b : Block}
      → get m a ≡ some b
      → sum (store m a c) + f b ≡ sum m + in_cell c
  unfolding sum
  sum-store [] a c h = cc
  sum-store (d ∷ m) zero c h = rw h (omega arith)
  sum-store (d ∷ m) (suc a) c h = omega (arith, sum-store m a c h)

  pub sum-append : (m n : Memory) → sum (m ++ n) ≡ sum m + sum n
  unfolding sum
  sum-append [] n = omega arith
  sum-append (c ∷ m) n = omega (arith, sum-append m n)

pub get-put_self :
    (m : Memory) (a : ℕ) (c : Option Block) {b : Block} → get m a ≡ some b → get (store m a c) a ≡ c
get-put_self [] a c h = cc
get-put_self (d ∷ m) zero c h = refl
get-put_self (d ∷ m) (suc a) c h = get-put_self m a c h

pub get-put_other :
    (m : Memory) (a e : ℕ) (c : Option Block) → a ≢ e → get (store m a c) e ≡ get m e
get-put_other [] a e c h = refl
get-put_other (d ∷ m) zero zero c h = absurd (h refl)
get-put_other (d ∷ m) zero (suc e) c h = refl
get-put_other (d ∷ m) (suc a) zero c h = refl
get-put_other (d ∷ m) (suc a) (suc e) c h = get-put_other m a e c (omega arith)

-- The references that an object's count stands for, the pointers to it in the blocks, the sum of all
-- counts, and the number of blocks whose count is zero.
abbrev pub cell_refs : Kind → Option Block → ℕ
cell_refs k none = 0
cell_refs k (some b) = if same_kind k (kind_of b.body) then b.refs else 0

abbrev pub refs_at : Kind → ℕ → Memory → ℕ
refs_at k a m = cell_refs k (get m a)

abbrev pub slot_count : Kind → ℕ → Block → ℕ
slot_count k a b = count k a (slots b.body)

abbrev pub held : Kind → ℕ → Memory → ℕ
held k a m = sum (slot_count k a) m

abbrev pub total : Memory → ℕ
total m = sum (λ b. b.refs) m

abbrev pub is_dead : Block → ℕ
is_dead b = if b.refs == 0 then 1 else 0

abbrev pub dead : Memory → ℕ
dead m = sum is_dead m

-- Each count is the number of pointers to the object, in variables and in blocks.
abbrev pub IsCounted : List Pointer → Memory → Type 0
IsCounted owners m = (k : Kind) (a : ℕ) → refs_at k a m ≡ count k a owners + held k a m

module _ (m : Memory) (a : ℕ) {b : Block} (found : get m a ≡ some b) (cell : Option Block) where
  pub refs-put_self : (k : Kind) → refs_at k a (store m a cell) ≡ cell_refs k cell
  refs-put_self k = ap (cell_refs k) (get-put_self m a cell found)

  -- A write that leaves the counts as they were.
  pub refs-store :
      (k : Kind) (c : ℕ)
      → cell_refs k cell ≡ cell_refs k (some b)
      → refs_at k c (store m a cell) ≡ refs_at k c m
  refs-store k c same = elim (ℕ_discrete a c) [
    | yes e ↦
        subst (λ (x : ℕ). refs_at k x (store m a cell) ≡ refs_at k x m) e
          (refs-put_self k ∙ same ∙ sym (ap (cell_refs k) found))
    | no e ↦ ap (cell_refs k) (get-put_other m a c cell e)
  ]

-- What an object holds, its count aside.
abbrev pub cell_body : Option Block → Option Body
cell_body none = none
cell_body (some b) = some b.body

abbrev pub body_at : ℕ → Memory → Option Body
body_at x m = cell_body (get m x)

pub body_at-store :
    (m : Memory) (a : ℕ) {b : Block} (refs x : ℕ)
    → get m a ≡ some b
    → body_at x (store m a (some (record b { refs = refs }))) ≡ body_at x m
body_at-store m a {b} refs x found = elim (ℕ_discrete a x) [
  | yes e ↦
      subst (λ (y : ℕ). body_at y (store m a (some (record b { refs = refs }))) ≡ body_at y m) e
        (ap cell_body (get-put_self m a (some (record b { refs = refs })) found)
          ∙ sym (ap cell_body found))
  | no e ↦ ap cell_body (get-put_other m a x (some (record b { refs = refs })) e)
]

pub same_kind_self : (k : Kind) → same_kind k k ≡ true
same_kind_self k = ground arith

own_refs : (b : Block) → cell_refs (kind_of b.body) (some b) ≡ b.refs
own_refs b = ground (arith, same_kind_self (kind_of b.body))

pub refs_live :
    (m : Memory) (a : ℕ) {b : Block} → get m a ≡ some b → refs_at (kind_of b.body) a m ≡ b.refs
refs_live m a {b} found = ap (cell_refs (kind_of b.body)) found ∙ own_refs b

-- A cell is its count and what it holds.
pub same_cell :
    (o p : Option Block)
    → cell_body o ≡ cell_body p
    → ((k : Kind) → cell_refs k o ≡ cell_refs k p)
    → o ≡ p
same_cell none none e h = refl
same_cell none (some b) e h = cc
same_cell (some b) none e h = cc
same_cell (some b) (some d) e h =
    let bodies : b.body ≡ d.body = cc in
    let other : cell_refs (kind_of b.body) (some d) ≡ d.refs = rw bodies (own_refs d) in
    let refs : b.refs ≡ d.refs = sym (own_refs b) ∙ h (kind_of b.body) ∙ other in ground arith

pub length-store : (m : Memory) (a : ℕ) (c : Option Block) → length (store m a c) ≡ length m
length-store [] a c = refl
length-store (d ∷ m) zero c = refl
length-store (d ∷ m) (suc a) c = omega (arith, length-store m a c)
