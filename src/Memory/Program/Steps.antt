-- ===== src/Memory/Program/Steps.antt =====
-- What the operations of Program.antt have in common: references that are gained by copies and lost
-- by releases, and the counts that come out of it.
use webvtt.Base.{
  ℕ, suc, ◌+◌, ◌-◌, ◌^◌, ◌<◌, ◌≡◌, refl, ap, ◌∙◌, some, arith, List, [], ◌∷◌, ◌++◌, length, true,
  false, Bool-cases, inl, inr,
}
use webvtt.Memory.{Kind, Pointer, Body, Block, Memory, string, null, at, slots, kind_of, get, store}
use webvtt.Memory.Handles.{statics, add_reference, create}
use webvtt.Memory.Handles.Counted.{
  Gained, add_reference-Gained, count-append, create-IsCounted, create-dead,
}
use webvtt.Memory.Program.{Program, forget, leads}
use webvtt.Memory.Release.{release, release_string}
use webvtt.Memory.Release.Contents.{release-live}
use webvtt.Memory.Release.Total.{live, less, less_refs, dead-less, total-less, live-is_dead}
use webvtt.Memory.Sums.{
  length-store, same_kind_self, IsCounted, tally, count, sum-store, refs-store, is_dead, slot_count,
  cell_refs, refs_at, held, total, dead, body_at, body_at-store,
}
use webvtt.Parser.{done}

-- Each count is the number of the pointers to the object, those from outside the program included
-- that the static objects start with, and no object is left whose count is zero.
pub record IsSound (s : Program) : Type 0 where
  pub counted : IsCounted (statics ++ s.owners) s.memory
  pub none_dead : dead s.memory ≡ 0

-- The references of `m`, and one for each of the pointers.
pub record Gains (ps : List Pointer) (m m' : Memory) : Type 0 where
  pub gained : (l : Kind) (c : ℕ) → refs_at l c m' ≡ refs_at l c m + count l c ps
  pub held_same : (l : Kind) (c : ℕ) → held l c m' ≡ held l c m
  pub dead_same : dead m' ≡ dead m
  pub grown : total m' ≡ total m + length ps
  pub bodies : (x : ℕ) → body_at x m' ≡ body_at x m
  pub size : length m' ≡ length m

pub Gains-nil : (m : Memory) → Gains [] m m
Gains-nil m = record {
  gained = λ l c. omega arith;
  held_same = λ l c. refl;
  dead_same = refl;
  grown = omega arith;
  bodies = λ x. refl;
  size = refl;
}

pub Gains-cons :
    {p : Pointer} {ps : List Pointer} {m m1 m2 : Memory}
    → Gains ps m m1
    → Gained p m1 m2
    → Gains (p ∷ ps) m m2
Gains-cons {p} {ps} g h = record {
  gained = λ l c. omega (arith, h.gained l c, g.gained l c);
  held_same = λ l c. h.held_same l c ∙ g.held_same l c;
  dead_same = h.dead_same ∙ g.dead_same;
  grown = omega (arith, h.plus_one, g.grown);
  bodies = λ x. h.bodies x ∙ g.bodies x;
  size = h.size ∙ g.size;
}

-- A copy, behind others.
pub copy-Gains :
    (k : Kind) (a : ℕ) {ps : List Pointer} {m m1 : Memory}
    → Gains ps m m1
    → 0 < refs_at k a m
    → total m + length ps < 2 ^ 31 - 1
    → (m2 : Memory) × (add_reference k a m1 ≡ done m2) × Gains (at k a ∷ ps) m m2
copy-Gains k a {ps} {m} {m1} g used few =
    let more = g.grown in
    let (m2, run, h) = add_reference-Gained k a m1 (omega (arith, g.gained k a)) (omega arith) in
    (m2, run, Gains-cons g h)

-- What the program's own pointers say of the counts.
pub used_lem :
    (s : Program) (k : Kind) (a : ℕ)
    → IsSound s
    → 0 < count k a s.owners + held k a s.memory
    → 0 < refs_at k a s.memory
used_lem s k a sound points = omega (arith, sound.counted k a)

pub empty_used : (s : Program) → IsSound s → 0 < refs_at string 0 s.memory
empty_used s sound = omega (arith, sound.counted string 0)

-- New pointers in variables.
pub Gains-IsSound :
    (s : Program) (p : Pointer) {m : Memory}
    → IsSound s
    → Gains (p ∷ []) s.memory m
    → IsSound (record { memory = m; owners = p ∷ s.owners })
Gains-IsSound s p sound g = record {
  counted = λ l c. omega (arith, sound.counted l c, g.gained l c, g.held_same l c);
  none_dead = g.dead_same ∙ sound.none_dead;
}

-- A new object into which the pointers gained are moved.
pub create-IsSound :
    (s : Program) (b : Body) {ps : List Pointer} {m : Memory}
    → IsSound s
    → Gains ps s.memory m
    → ((l : Kind) (c : ℕ) → count l c (slots b) ≡ count l c ps)
    → IsSound (record { memory = create b m; owners = at (kind_of b) (length m) ∷ s.owners })
create-IsSound s b {ps} {m} sound g same =
    let moved : IsCounted (slots b ++ (statics ++ s.owners)) m = λ l c. omega (
      arith,
      sound.counted l c,
      g.gained l c,
      g.held_same l c,
      same l c,
      count-append l c (slots b) (statics ++ s.owners),
    ) in
    record {
      counted = λ l c. omega (arith, create-IsCounted b m (statics ++ s.owners) moved l c);
      none_dead = create-dead b m ∙ g.dead_same ∙ sound.none_dead;
    }

two_refs :
    (k : Kind) (a : ℕ) {ps : List Pointer} {m m1 : Memory} {b : Block} {r : ℕ}
    → Gains (at k a ∷ ps) m m1
    → 0 < refs_at k a m
    → get m1 a ≡ some b
    → kind_of b.body ≡ k
    → b.refs ≡ suc r
    → 0 < r
two_refs k a {ps} {m} {m1} g used found kind refs =
    let h = g.gained k a in let there = ap (cell_refs k) found in ground (arith, same_kind_self k)

release_lem :
    (fuel : ℕ) (k : Kind) (a : ℕ) (n : Memory) {b : Block} (r : ℕ)
    → get n a ≡ some b
    → kind_of b.body ≡ k
    → b.refs ≡ suc (suc r)
    → release (suc fuel) (at k a) n ≡ done (store n a (some (less b (suc r))))
release_lem fuel k a n r found kind refs = release-live fuel k a n found kind refs ∙ ground arith

-- A reference is lost by the release of an object that has others.
pub lose-Gains :
    (fuel : ℕ) (k : Kind) (a : ℕ) {ps : List Pointer} {m m1 : Memory}
    → Gains (at k a ∷ ps) m m1
    → 0 < refs_at k a m
    → (m2 : Memory) × (release (suc fuel) (at k a) m1 ≡ done m2) × Gains ps m m2
lose-Gains fuel k a {ps} {m} {m1} g used =
    let (b, r, found, kind, refs) = live k a m1 (omega (arith, g.gained k a)) in
    let two = two_refs k a g used found kind refs in
    let refs' : b.refs ≡ suc (suc (r - 1)) = omega arith in
    (
      store m1 a (some (less b (suc (r - 1)))),
      release_lem fuel k a m1 (r - 1) found kind refs',
      record {
        gained = λ l c. omega (arith, g.gained l c, less_refs k a m1 found kind refs' l c);
        held_same = λ l c. omega (
          arith,
          g.held_same l c,
          sum-store (slot_count l c) m1 a (some (less b (suc (r - 1)))) found,
        );
        dead_same = omega (
          arith,
          g.dead_same,
          dead-less k a m1 found kind refs',
          live-is_dead (less b (suc (r - 1))) refl,
        );
        grown = omega (arith, g.grown, total-less k a m1 found kind refs');
        bodies = λ x. body_at-store m1 a (suc (r - 1)) x found ∙ g.bodies x;
        size = length-store m1 a (some (less b (suc (r - 1)))) ∙ g.size;
      },
    )

pub release-Gains :
    (a : ℕ) {ps : List Pointer} {m m1 : Memory}
    → Gains (at string a ∷ ps) m m1
    → 0 < refs_at string a m
    → (m2 : Memory) × (release_string a m1 ≡ done m2) × Gains ps m m2
unfolding release
release-Gains a g used = lose-Gains 0 string a g used

leads-eq : (k : Kind) (a : ℕ) (p : Pointer) → leads k a p ≡ true → p ≡ at k a
leads-eq k a null h = cc
leads-eq k a (at l c) h = ground arith

leads-tally : (k : Kind) (a : ℕ) (p : Pointer) → leads k a p ≡ false → tally k a p ≡ 0
leads-tally k a null h = refl
leads-tally k a (at l c) h = ground arith

-- A variable gives up its pointer.
pub count-forget :
    (k : Kind) (a : ℕ) (l : Kind) (c : ℕ) (ps : List Pointer)
    → 0 < count k a ps
    → count l c (forget k a ps) + tally l c (at k a) ≡ count l c ps
unfolding forget
count-forget k a l c [] h = absurd (omega arith)
count-forget k a l c (p ∷ ps) h = elim (Bool-cases (leads k a p)) [
  | inl here ↦ rw here (omega (arith, ap (tally l c) (leads-eq k a p here)))
  | inr other ↦ rw other (
      let none_here = leads-tally k a p other in
      omega (arith, count-forget k a l c ps (omega arith)))
]

-- A pointer is stored in one more slot of an object, and gets its reference afterwards.
pub fill-IsSound :
    (s : Program) (a : ℕ) {b : Block} (body : Body) (k : Kind) (x : ℕ)
    → get s.memory a ≡ some b
    → kind_of body ≡ kind_of b.body
    → ((l : Kind) (c : ℕ) → count l c (slots body) ≡ count l c (slots b.body) + tally l c (at k x))
    → IsSound s
    → 0 < count k x s.owners + held k x s.memory
    → total s.memory < 2 ^ 31 - 1
    → (m : Memory) × (add_reference k x (store s.memory a (some (record b { body = body })))
        ≡ done m)
      × IsSound (record s { memory = m })
fill-IsSound s a {b} body k x found kind slot sound points few =
    let n : Memory = store s.memory a (some (record b { body = body })) in
    let same : (l : Kind) (c : ℕ) → refs_at l c n ≡ refs_at l c s.memory =
      λ l c. refs-store s.memory a found (some (record b { body = body })) l c (rw kind refl) in
    let dead_same = sum-store is_dead s.memory a (some (record b { body = body })) found in
    let total_same = sum-store (λ d. d.refs) s.memory a (some (record b { body = body })) found in
    let (m, run, g) =
      add_reference-Gained k x n (omega (arith, same k x, used_lem s k x sound points))
        (omega arith) in
    (
      m,
      run,
      record {
        counted = λ l c. omega (
          arith,
          sound.counted l c,
          g.gained l c,
          g.held_same l c,
          same l c,
          slot l c,
          sum-store (slot_count l c) s.memory a (some (record b { body = body })) found,
        );
        none_dead = omega (arith, g.dead_same, sound.none_dead);
      },
    )
