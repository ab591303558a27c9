-- ===== src/Memory/Release/Total.antt =====
-- The routines of Release.antt on a memory in which each count is the number of its pointers: they
-- end, and no count, cell or pointer is out of step afterwards.
use webvtt.Base.{
  ℕ, zero, suc, ◌+◌, ◌-◌, ◌≤◌, ◌<◌, ◌≡◌, ◌≢◌, refl, sym, ap, subst, ◌∙◌, Option, none, some, arith,
  List, ◌∷◌, length, inl, inr, Bool-cases, true, ◌==◌, if◌then◌else◌,
}
use native.Mathlib.Decide.{ℕ_discrete}
use webvtt.Memory.{Kind, Pointer, Block, Memory, null, at, slots, kind_of, same_kind, get, store}
use webvtt.Memory.Release.{Release, release, dropped}
use webvtt.Memory.Release.Contents.{release_contents, release-live}
use webvtt.Memory.Release.Loop.{
  Released, Releases, Emptied, Spent, Spent-count, release_slots-Emptied,
}
use webvtt.Memory.Sums.{
  IsCounted, tally, sum-store, get-put_self, get-put_other, refs-store, refs-put_self, slot_count,
  refs_at, cell_refs, total, dead, is_dead, same_kind_self,
}
use webvtt.Parser.{done}

kind_of_same : (k l : Kind) → same_kind k l ≡ true → l ≡ k
kind_of_same k l h = ground arith

cell_live :
    (k : Kind) (o : Option Block)
    → 0 < cell_refs k o
    → (b : Block) × (r : ℕ) × (o ≡ some b) × (kind_of b.body ≡ k) × (b.refs ≡ suc r)
cell_live k none h = absurd (omega arith)
cell_live k (some b) h = elim (Bool-cases (same_kind k (kind_of b.body))) [
  | inl same ↦ (b, b.refs - 1, refl, kind_of_same k (kind_of b.body) same, ground arith)
  | inr other ↦ absurd (ground arith)
]

-- An object with a reference is there.
pub live :
    (k : Kind) (a : ℕ) (m : Memory)
    → 0 < refs_at k a m
    → (b : Block) × (r : ℕ) × (get m a ≡ some b) × (kind_of b.body ≡ k) × (b.refs ≡ suc r)
live k a m h = cell_live k (get m a) h

pub tally_other : (l k : Kind) {a c : ℕ} → a ≢ c → tally l c (at k a) ≡ 0
tally_other l k ne = ground arith

pub live-is_dead : (b : Block) {r : ℕ} → b.refs ≡ suc r → is_dead b ≡ 0
live-is_dead b h = ground arith

zero-is_dead : (b : Block) → b.refs ≡ 0 → is_dead b ≡ 1
zero-is_dead b h = ground arith

zero-cell_refs : (l : Kind) (b : Block) → b.refs ≡ 0 → cell_refs l none ≡ cell_refs l (some b)
zero-cell_refs l b h = ground arith

-- One reference less.
abbrev pub less : Block → ℕ → Block
less b r = record b { refs = r }

module _ (k : Kind) (a : ℕ) (m : Memory) {b : Block} {r : ℕ} (found : get m a ≡ some b)
    (kind : kind_of b.body ≡ k) (refs : b.refs ≡ suc r) where
  cell_less :
      (l : Kind) (c : ℕ)
      → a ≡ c
      → cell_refs l (some (less b r)) + tally l c (at k a) ≡ cell_refs l (some b)
  cell_less l c same = ground arith

  pub less_refs :
      (l : Kind) (c : ℕ)
      → refs_at l c (store m a (some (less b r))) + tally l c (at k a) ≡ refs_at l c m
  less_refs l c = elim (ℕ_discrete a c) [
    | yes e ↦ omega (
      arith,
      cell_less l c e,
      subst (λ (x : ℕ). refs_at l x (store m a (some (less b r))) ≡ cell_refs l (some (less b r))) e
          (refs-put_self m a found (some (less b r)) l),
      subst (λ (x : ℕ). refs_at l x m ≡ cell_refs l (some b)) e (ap (cell_refs l) found),
    )
    | no e ↦
        omega (arith, tally_other l k e, ap (cell_refs l) (get-put_other m a c (some (less b r)) e))
  ]

  pub less-IsCounted :
      (owners : List Pointer)
      → IsCounted (at k a ∷ owners) m
      → IsCounted owners (store m a (some (less b r)))
  less-IsCounted owners h l c =
      omega (arith, h l c, less_refs l c, sum-store (slot_count l c) m a (some (less b r)) found)

  pub total-less : total (store m a (some (less b r))) + 1 ≡ total m
  total-less = omega (arith, refs, sum-store (λ d. d.refs) m a (some (less b r)) found)

  pub dead-less : dead (store m a (some (less b r))) ≡ dead m + is_dead (less b r)
  dead-less =
      omega (arith, refs, live-is_dead b refs, sum-store is_dead m a (some (less b r)) found)

-- The block is freed, where its slots are null.
module _ (a : ℕ) (m m' : Memory) (b : Block) (owners : List Pointer) (found : get m a ≡ some b)
    (zero_refs : b.refs ≡ 0) (i : ℕ) (all : i ≡ length (slots b.body))
    (e : Emptied a i b owners m m') where
  empty_slots : (l : Kind) (c : ℕ) → slot_count l c e.now ≡ 0
  empty_slots l c =
      Spent-count l c (slots e.now.body)
        (subst (λ (x : ℕ). Spent x (slots e.now.body)) (all ∙ sym e.size) e.spent)

  freed-IsCounted : IsCounted owners (store m' a none)
  freed-IsCounted l c = omega (
    arith,
    e.counted l c,
    refs-store m' a e.found none l c (zero-cell_refs l e.now e.refs),
    sum-store (slot_count l c) m' a none e.found,
    empty_slots l c,
  )

  freed-dead : dead (store m' a none) + 1 ≡ dead m
  freed-dead =
      omega (arith, sum-store is_dead m' a none e.found, zero-is_dead e.now e.refs, e.dead_same)

  freed-total : total (store m' a none) ≤ total m
  freed-total =
      let zero = e.refs in
      let less = e.fewer in omega (arith, sum-store (λ d. d.refs) m' a none e.found)

  freed-kept :
      (c : ℕ) {d : Block} → c ≢ a → get m c ≡ some d → d.refs ≡ 0 → get (store m' a none) c ≡ some d
  freed-kept c other there none_left =
      get-put_other m' a c none (λ p. other (sym p)) ∙ e.kept c other there none_left

-- What is left of a block: nothing, where this was its last reference.
abbrev pub remaining : Block → Option Block
remaining b = if b.refs == 1 then none else some (less b (b.refs - 1))

not_live :
    (m : Memory) {a c : ℕ} {b d : Block} {r : ℕ}
    → get m a ≡ some b
    → b.refs ≡ suc r
    → get m c ≡ some d
    → d.refs ≡ 0
    → c ≢ a
not_live m {a} {c} {b} {d} found refs h none_left e =
    let same : get m a ≡ some d = subst (λ (x : ℕ). get m x ≡ some d) e h in
    let eq : some b ≡ some d = sym found ∙ same in ground arith

pub owned :
    (k : Kind) (a : ℕ) (m : Memory) (owners : List Pointer)
    → IsCounted (at k a ∷ owners) m
    → 0 < refs_at k a m
owned k a m owners counted = let h = counted k a in ground (arith, same_kind_self k)

dropped-Released :
    (rel : Release) (bound : ℕ)
    → Releases rel bound
    → (k : Kind) (a : ℕ) (m : Memory) {b : Block} (r : ℕ) → get m a ≡ some b
    → kind_of b.body ≡ k
    → b.refs ≡ suc r
    → (owners : List Pointer) → IsCounted (at k a ∷ owners) m
    → total m < suc bound
    → (m' : Memory) × (dropped (release_contents rel) a b m r ≡ done m')
      × Released owners m m'
      × (get m' a ≡ remaining b)
unfolding release_contents
dropped-Released rel bound works k a m {b} zero found kind refs owners counted low =
    let n : Memory = store m a (some (less b 0)) in
    let there = get-put_self m a (some (less b 0)) found in
    let sum_less = total-less k a m found kind refs in
    let (m1, run, e) =
      release_slots-Emptied rel bound works a owners (length (slots b.body)) 0 n there (omega arith)
        refl tt (less-IsCounted k a m found kind refs owners counted) (omega arith) in
    let all : 0 + length (slots b.body) ≡ length (slots b.body) = omega arith in
    let gone = freed-dead a n m1 (less b 0) owners there refl _ all e in
    let no_more = freed-total a n m1 (less b 0) owners there refl _ all e in
    (
      store m1 a none,
      rw run refl,
      record {
        counted = freed-IsCounted a n m1 (less b 0) owners there refl _ all e;
        dead_same = omega (arith, gone, dead-less k a m found kind refs);
        fewer = omega (arith, no_more);
        kept = λ c h none_left.
            let other = not_live m found refs h none_left in
            freed-kept a n m1 (less b 0) owners there refl _ all e c other
              (get-put_other m a c _ (λ p. other (sym p)) ∙ h) none_left;
      },
      get-put_self m1 a none e.found ∙ rw refs refl,
    )
dropped-Released rel bound works k a m {b} (suc r) found kind refs owners counted low =
    let sum_less = total-less k a m found kind refs in
    (
      store m a (some (less b (suc r))),
      ground arith,
      record {
        counted = less-IsCounted k a m found kind refs owners counted;
        dead_same =
            omega (arith, dead-less k a m found kind refs, live-is_dead (less b (suc r)) refl);
        fewer = omega arith;
        kept = λ c h none_left.
            get-put_other m a c _ (λ p. not_live m found refs h none_left (sym p)) ∙ h;
      },
      get-put_self m a _ found ∙ ground arith,
    )

-- Release with enough fuel, of each pointer that the counts account for.
pub release-Releases : (fuel : ℕ) → Releases (release fuel) fuel
unfolding release
release-Releases zero p m owners counted low = absurd (omega arith)
release-Releases (suc f) null m owners counted low = (
  m,
  refl,
  record {
    counted = λ l c. omega (arith, counted l c);
    dead_same = refl;
    fewer = omega arith;
    kept = λ c h none_left. h;
  },
)
release-Releases (suc f) (at k a) m owners counted low =
    let (b, r, found, kind, refs) = live k a m (owned k a m owners counted) in
    let (m', run, released, _) =
      dropped-Released (release f) f (release-Releases f) k a m r found kind refs owners counted
        low in
    (m', release-live f k a m found kind refs ∙ run, released)

-- A pointer to an object, in a memory where each count is the number of the pointers to its object, is
-- released: given more fuel than the counts sum up to the routine ends without a fault, each count is
-- the number of the pointers that are left, no block is left with a count of zero that had none, and
-- the object has one reference less, or is freed where this was the last one.
pub release-IsCounted :
    (fuel : ℕ) (k : Kind) (a : ℕ) (m : Memory) (owners : List Pointer)
    → IsCounted (at k a ∷ owners) m
    → total m < fuel
    → (b : Block) × (m' : Memory) × (get m a ≡ some b)
      × (release fuel (at k a) m ≡ done m')
      × IsCounted owners m'
      × (dead m' ≡ dead m)
      × (get m' a ≡ remaining b)
release-IsCounted zero k a m owners counted low = absurd (omega arith)
release-IsCounted (suc f) k a m owners counted low =
    let (b, r, found, kind, refs) = live k a m (owned k a m owners counted) in
    let (m', run, released, left) =
      dropped-Released (release f) f (release-Releases f) k a m r found kind refs owners counted
        low in
    (
      b,
      m',
      found,
      release-live f k a m found kind refs ∙ run,
      released.counted,
      released.dead_same,
      left,
    )
