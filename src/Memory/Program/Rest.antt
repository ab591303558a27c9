-- ===== src/Memory/Program/Rest.antt =====
-- A program of Program.antt that has given up all its pointers: what is left of the memory.
use webvtt.Base.{
  ℕ, zero, suc, ◌+◌, ◌<◌, ◌≡◌, refl, subst, ◌++◌, none, some, arith, List, [], ◌∷◌, ◌⊎◌, inl, inr,
  Option-cases,
}
use webvtt.Memory.{Kind, Pointer, string, node, Block, Memory, kind_of, slots, get}
use webvtt.Memory.Handles.{empty_node, empty_string, statics}
use webvtt.Memory.Handles.Detach.{no_slots}
use webvtt.Memory.Program.{Program}
use webvtt.Memory.Program.Reach.{Reach, Reach-IsSound}
use webvtt.Memory.Release.Total.{live}
use webvtt.Memory.Sums.{
  refs_live, IsCounted, count, sum, sum-store, slot_count, is_dead, refs_at, held, dead,
}

-- No object leads back to itself: each has a rank, below the bound, and leads to objects of lower rank
-- only. `empty_node` has the lowest rank, since it has no children.
pub record IsRanked (rank : ℕ → ℕ) (bound : ℕ) (m : Memory) : Type 0 where
  pub bounded : (a : ℕ) → rank a < bound
  pub lowest : rank empty_node ≡ 0
  pub lower :
      (a : ℕ) {b : Block} (k : Kind) (c : ℕ)
      → get m a ≡ some b
      → 0 < count k c (slots b.body)
      → rank c < rank a

pos_cases : (n : ℕ) → (0 < n) ⊎ (n ≡ 0)
pos_cases zero = inr refl
pos_cases (suc n) = inl (omega arith)

statics_below : (k : Kind) (x : ℕ) → 1 < x → count k x statics ≡ 0
statics_below k x above = ground arith

holder :
    (f : Block → ℕ) (m : Memory)
    → 0 < sum f m
    → (a : ℕ) × (b : Block) × (get m a ≡ some b) × (0 < f b)
unfolding sum
holder f [] h = absurd (omega arith)
holder f (none ∷ m) h = let (a, b, found, pos) = holder f m (omega arith) in (suc a, b, found, pos)
holder f (some b ∷ m) h = elim (pos_cases (f b)) [
  | inl pos ↦ (0, b, refl, pos)
  | inr none_here ↦ let (a, d, found, pos) = holder f m (omega arith) in (suc a, d, found, pos)
]

not_dead : (m : Memory) (a : ℕ) {b : Block} → dead m ≡ 0 → get m a ≡ some b → 0 < b.refs
not_dead m a {b} h found = let e = sum-store is_dead m a none found in ground arith

module _ (m : Memory) (counted : IsCounted statics m) (none_dead : dead m ≡ 0) (rank : ℕ → ℕ)
    (bound : ℕ) (ranked : IsRanked rank bound m) where
  -- The static string leads nowhere, and neither does the static node.
  holder_above :
      (k : Kind) (c x : ℕ) {b : Block} → get m x ≡ some b → 0 < count k c (slots b.body) → 1 < x
  holder_above k c zero {b} found pos =
      let (d, _, there, kind, _) = live string 0 m (omega (arith, counted string 0)) in
      let e : b ≡ d = cc in
      let nothing : count k c (slots b.body) ≡ 0 = rw (e, no_slots d.body kind) refl in
      absurd (omega arith)
  holder_above k c (suc zero) found pos =
      let up = ranked.lower 1 k c found pos in absurd (omega (arith, ranked.lowest))
  holder_above k c (suc (suc x)) found pos = omega arith

  -- An object that is not static has a holder, which has one again, and ranks would grow for ever.
  none_above : (n x : ℕ) {b : Block} → get m x ≡ some b → 1 < x → rank x + n < bound
  none_above zero x found above = omega (arith, ranked.bounded x)
  none_above (suc n) x {b} found above =
      let refs = not_dead m x none_dead found in
      let outside = statics_below (kind_of b.body) x above in
      let (y, d, there, pos) =
        holder (slot_count (kind_of b.body) x) m
          (omega (arith, counted (kind_of b.body) x, refs_live m x found)) in
      let up = ranked.lower y (kind_of b.body) x there pos in
      omega (arith, none_above n y there (holder_above (kind_of b.body) x y there pos))

  all_freed : (x : ℕ) → 1 < x → get m x ≡ none
  all_freed x above = elim (Option-cases (get m x)) [
    | inl gone ↦ gone
    | inr (b, found) ↦ absurd (omega (arith, none_above bound x found above))
  ]

  none_held : (k : Kind) (a : ℕ) → held k a m ≡ 0
  none_held k a = elim (pos_cases (held k a m)) [
    | inr none_here ↦ none_here
    | inl pos ↦
        let (y, d, there, slot) = holder (slot_count k a) m pos in
        let gone = all_freed y (holder_above k a y there slot) in cc
  ]

-- A program that Reach leads to, and none of whose variables holds a pointer: where no object leads back
-- to itself, every object but the two static ones has been freed, and those have the one reference
-- that they start with.
pub Reach-freed :
    (s : Program) (rank : ℕ → ℕ) (bound : ℕ)
    → Reach s
    → s.owners ≡ []
    → IsRanked rank bound s.memory
    → ((a : ℕ) → 1 < a → get s.memory a ≡ none)
      × (refs_at string empty_string s.memory ≡ 1)
      × (refs_at node empty_node s.memory ≡ 1)
Reach-freed s rank bound r empty ranked =
    let sound = Reach-IsSound r in
    let counted : IsCounted statics s.memory =
      subst (λ (ps : List Pointer). IsCounted (statics ++ ps) s.memory) empty sound.counted in
    let none_left = none_held s.memory counted sound.none_dead rank bound ranked in
    (
      all_freed s.memory counted sound.none_dead rank bound ranked,
      omega (arith, counted string empty_string, none_left string empty_string),
      omega (arith, counted node empty_node, none_left node empty_node),
    )
