-- ===== src/Memory/Handles/Counted.antt =====
-- Objects that are created and pointers that are copied: what that does to the counts.
use webvtt.Base.{
  ℕ, zero, suc, ◌+◌, ◌-◌, ◌^◌, ◌≤◌, ◌<◌, ◌≡◌, ◌≢◌, ap, subst, ◌∙◌, none, some, arith, List, [], ◌∷◌,
  ◌++◌, length, true, ◌&&◌, if◌then◌else◌,
}
use native.Mathlib.Decide.{ℕ_discrete}
use webvtt.Memory.{
  Kind, Pointer, Body, Block, Memory, at, slots, kind_of, same_kind, get, store, ref,
}
use webvtt.Memory.Handles.{create, add_reference}
use webvtt.Memory.Release.Contents.{load-live}
use webvtt.Memory.Release.Total.{live, live-is_dead, tally_other}
use webvtt.Memory.Sums.{
  length-store, IsCounted, tally, count, sum, sum-store, sum-append, get-put_other, refs-put_self,
  slot_count, refs_at, body_at, body_at-store, cell_refs, held, total, dead, is_dead,
}
use webvtt.Parser.{Run, done, ◌>>=◌}

pub count-append :
    (k : Kind) (a : ℕ) (ps qs : List Pointer) → count k a (ps ++ qs) ≡ count k a ps + count k a qs
count-append k a [] qs = omega arith
count-append k a (p ∷ ps) qs = omega (arith, count-append k a ps qs)

tally_kind :
    (l k : Kind) → (if same_kind l k then 1 else 0) ≡ 0 + (if same_kind l k && true then 1 else 0)
tally_kind l k = ground arith

tally_above : (l k : Kind) (n c : ℕ) → n ≢ c → tally l c (at k n) ≡ 0
tally_above l k n c h = ground arith

tally-suc : (l k : Kind) (n c : ℕ) → tally l (suc c) (at k (suc n)) ≡ tally l c (at k n)
tally-suc l k n c = ground arith

refs-create :
    (l : Kind) (c : ℕ) (b : Body) (m : Memory)
    → refs_at l c (create b m) ≡ refs_at l c m + tally l c (at (kind_of b) (length m))
refs-create l zero b [] = tally_kind l (kind_of b)
refs-create l (suc c) b [] = omega (arith, tally_above l (kind_of b) 0 (suc c))
refs-create l zero b (d ∷ m) = omega (arith, tally_above l (kind_of b) (suc (length m)) 0)
refs-create l (suc c) b (d ∷ m) =
    omega (arith, refs-create l c b m, tally-suc l (kind_of b) (length m) c)

sum-create :
    (f : Block → ℕ) (b : Body) (m : Memory)
    → sum f (create b m) ≡ sum f m + f (record { refs = 1; body = b })
unfolding sum
sum-create f b m = omega (arith, sum-append f m (some (record { refs = 1; body = b }) ∷ []))

-- The pointers that are moved into a new object give way to the pointer to it.
pub create-IsCounted :
    (b : Body) (m : Memory) (owners : List Pointer)
    → IsCounted (slots b ++ owners) m
    → IsCounted (at (kind_of b) (length m) ∷ owners) (create b m)
create-IsCounted b m owners h l c = omega (
  arith,
  h l c,
  count-append l c (slots b) owners,
  refs-create l c b m,
  sum-create (slot_count l c) b m,
)

pub create-dead : (b : Body) (m : Memory) → dead (create b m) ≡ dead m
create-dead b m = omega (arith, sum-create is_dead b m)

pub create-total : (b : Body) (m : Memory) → total (create b m) ≡ total m + 1
create-total b m = omega (arith, sum-create (λ d. d.refs) b m)

-- The references of `m`, and one for the pointer.
pub record Gained (p : Pointer) (m m' : Memory) : Type 0 where
  pub gained : (l : Kind) (c : ℕ) → refs_at l c m' ≡ refs_at l c m + tally l c p
  pub held_same : (l : Kind) (c : ℕ) → held l c m' ≡ held l c m
  pub dead_same : dead m' ≡ dead m
  pub plus_one : total m' ≡ total m + 1
  pub bodies : (x : ℕ) → body_at x m' ≡ body_at x m
  pub size : length m' ≡ length m

pub refs_at-le-total : (k : Kind) (a : ℕ) (m : Memory) → refs_at k a m ≤ total m
unfolding sum
refs_at-le-total k a [] = ground arith
refs_at-le-total k zero (none ∷ m) = ground arith
refs_at-le-total k zero (some b ∷ m) = ground arith
refs_at-le-total k (suc a) (d ∷ m) = omega (arith, refs_at-le-total k a m)

more-is_dead : (b : Block) → is_dead (record b { refs = b.refs + 1 }) ≡ 0
more-is_dead b = ground arith

abbrev pub more : Block → Block
more b = record b { refs = b.refs + 1 }

module _ (k : Kind) (a : ℕ) (m : Memory) {b : Block} (found : get m a ≡ some b)
    (kind : kind_of b.body ≡ k) where
  more_cell :
      (l : Kind) (c : ℕ)
      → a ≡ c
      → cell_refs l (some (more b)) ≡ cell_refs l (some b) + tally l c (at k a)
  more_cell l c same = ground arith

  more_refs :
      (l : Kind) (c : ℕ)
      → refs_at l c (store m a (some (more b))) ≡ refs_at l c m + tally l c (at k a)
  more_refs l c = elim (ℕ_discrete a c) [
    | yes e ↦ omega (
      arith,
      more_cell l c e,
      subst (λ (x : ℕ). refs_at l x (store m a (some (more b))) ≡ cell_refs l (some (more b))) e
          (refs-put_self m a found (some (more b)) l),
      subst (λ (x : ℕ). refs_at l x m ≡ cell_refs l (some b)) e (ap (cell_refs l) found),
    )
    | no e ↦
        omega (arith, tally_other l k e, ap (cell_refs l) (get-put_other m a c (some (more b)) e))
  ]

  more-Gained : {r : ℕ} → b.refs ≡ suc r → Gained (at k a) m (store m a (some (more b)))
  more-Gained refs = record {
    gained = more_refs;
    held_same = λ l c. omega (arith, sum-store (slot_count l c) m a (some (more b)) found);
    dead_same =
        omega
          (arith, sum-store is_dead m a (some (more b)) found, live-is_dead b refs, more-is_dead b);
    plus_one = omega (arith, sum-store (λ d. d.refs) m a (some (more b)) found);
    bodies = λ x. body_at-store m a (b.refs + 1) x found;
    size = length-store m a (some (more b));
  }

ref-done : (n : ℕ) → n < 2 ^ 31 - 1 → ref n ≡ done (n + 1)
ref-done n h = ground arith

pub low_refs :
    (a : ℕ) (m : Memory) {b : Block} → get m a ≡ some b → total m < 2 ^ 31 - 1 → b.refs < 2 ^ 31 - 1
low_refs a m found few = omega (arith, sum-store (λ d. d.refs) m a none found)

pub add_reference-more :
    (k : Kind) (a : ℕ) (m : Memory) {b : Block}
    → get m a ≡ some b
    → kind_of b.body ≡ k
    → b.refs < 2 ^ 31 - 1
    → add_reference k a m ≡ done (store m a (some (more b)))
unfolding add_reference
add_reference-more k a m {b} found kind low =
    ap
      (λ (x : Run Block).
        x >>= λ d. ref d.refs >>= λ n. done (store m a (some (record d { refs = n }))))
      (load-live k a m found kind)
    ∙ ap (λ (x : Run ℕ). x >>= λ n. done (store m a (some (record b { refs = n }))))
        (ref-done b.refs low)

-- A reference to an object that has one.
pub add_reference-Gained :
    (k : Kind) (a : ℕ) (m : Memory)
    → 0 < refs_at k a m
    → total m < 2 ^ 31 - 1
    → (m' : Memory) × (add_reference k a m ≡ done m') × Gained (at k a) m m'
add_reference-Gained k a m used few =
    let (b, r, found, kind, refs) = live k a m used in
    (
      store m a (some (more b)),
      add_reference-more k a m found kind (low_refs a m found few),
      more-Gained k a m found kind refs,
    )

pub Gained-IsCounted :
    {p : Pointer} {m m' : Memory} (owners : List Pointer)
    → Gained p m m'
    → IsCounted owners m
    → IsCounted (p ∷ owners) m'
Gained-IsCounted owners g h l c = omega (arith, h l c, g.gained l c, g.held_same l c)
