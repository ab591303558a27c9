-- ===== src/Memory/Token/RoundTrip.antt =====
-- A token of Token.antt that is created and deleted.
use webvtt.Base.{ℕ, suc, ◌+◌, ◌≡◌, refl, arith, List, [], ◌∷◌, length}
use webvtt.Memory.{Kind, Pointer, Memory, string, stringlist, at, get}
use webvtt.Memory.Handles.{add_reference}
use webvtt.Memory.Program.{Program, Points}
use webvtt.Memory.Program.Operations.{HasFew}
use webvtt.Memory.Program.Reach.{Reach, Reach-IsSound}
use webvtt.Memory.Program.Steps.{IsSound, Gains, Gains-nil, copy-Gains, lose-Gains, used_lem}
use webvtt.Memory.Release.{release}
use webvtt.Memory.Sums.{count, refs_at, same_cell}
use webvtt.Memory.Token.{
  TokenObject, start_token, end_token, text_token, time_stamp_token, Request, start, end, text,
  time_stamp, create_token, delete_token, members,
}
use webvtt.Parser.{done}

-- The objects that a token is created from are there.
abbrev pub PointsAll : Program → Request → Type 0
PointsAll s (start tag css annotation) =
    Points s string tag × Points s stringlist css × Points s string annotation
PointsAll s (end tag) = Points s string tag
PointsAll s (text t) = Points s string t
PointsAll s (time_stamp t) = Unit

-- The pointers gained, in another order.
Gains-perm :
    {ps : List Pointer} (qs : List Pointer) {m m' : Memory}
    → Gains ps m m'
    → ((l : Kind) (c : ℕ) → count l c qs ≡ count l c ps)
    → length qs ≡ length ps
    → Gains qs m m'
Gains-perm qs g same size = record {
  gained = λ l c. omega (arith, g.gained l c, same l c);
  held_same = g.held_same;
  dead_same = g.dead_same;
  grown = omega (arith, g.grown);
  bodies = g.bodies;
  size = g.size;
}

-- What has gained nothing is as it was.
Gains-same : {m m' : Memory} → Gains [] m m' → (x : ℕ) → get m' x ≡ get m x
Gains-same {m} {m'} g x =
    same_cell (get m' x) (get m x) (g.bodies x) (λ k. omega (arith, g.gained k x))

-- One pointer copied, and given up.
module _ (fuel : ℕ) (s : Program) (sound : IsSound s) (few : HasFew s) where
  copied_back :
      (k : Kind) (a : ℕ)
      → Points s k a
      → (m1 : Memory) × (m2 : Memory) × (add_reference k a s.memory ≡ done m1)
        × (release (suc fuel) (at k a) m1 ≡ done m2)
        × Gains (at k a ∷ []) s.memory m1
        × Gains [] s.memory m2
  copied_back k a points =
      let used = used_lem s k a sound points in
      let (m1, run1, g1) = copy-Gains k a (Gains-nil s.memory) used (omega arith) in
      let (m2, run2, g2) = lose-Gains fuel k a g1 used in (m1, m2, run1, run2, g1, g2)

  round_trip :
      (left : Pointer) (r : Request)
      → PointsAll s r
      → (t : TokenObject) × (m1 : Memory) × (m2 : Memory) × (create_token left r s.memory
          ≡ done (t, m1))
        × ((k : Kind) (a : ℕ) → refs_at k a m1 ≡ refs_at k a s.memory + count k a (members t))
        × (delete_token (suc fuel) t m1 ≡ done m2)
        × ((x : ℕ) → get m2 x ≡ get s.memory x)
  unfolding create_token delete_token
  round_trip left (end tag) points =
      let (m1, m2, run1, run2, g1, g2) = copied_back string tag points in
      (end_token (at string tag), m1, m2, rw run1 refl, g1.gained, run2, Gains-same g2)
  round_trip left (text t) points =
      let (m1, m2, run1, run2, g1, g2) = copied_back string t points in
      (text_token (at string t), m1, m2, rw run1 refl, g1.gained, run2, Gains-same g2)
  round_trip left (time_stamp t) points =
      (time_stamp_token t, s.memory, s.memory, refl, λ k a. omega arith, refl, λ x. refl)
  round_trip left (start tag css annotation) (tag_points, css_points, annotation_points) =
      let used1 = used_lem s string tag sound tag_points in
      let used2 = used_lem s stringlist css sound css_points in
      let used3 = used_lem s string annotation sound annotation_points in
      let (m1, run1, g1) = copy-Gains string tag (Gains-nil s.memory) used1 (omega arith) in
      let (m2, run2, g2) = copy-Gains stringlist css g1 used2 (omega arith) in
      let (m3, run3, g3) = copy-Gains string annotation g2 used3 (omega arith) in
      let turned =
        Gains-perm (at stringlist css ∷ at string annotation ∷ at string tag ∷ []) g3
          (λ l c. omega arith) refl in
      let (m4, run4, g4) = lose-Gains fuel stringlist css turned used2 in
      let (m5, run5, g5) = lose-Gains fuel string annotation g4 used3 in
      let (m6, run6, g6) = lose-Gains fuel string tag g5 used1 in
      (
        start_token (at string tag) (at stringlist css) (at string annotation),
        m3,
        m6,
        rw (run1, run2, run3) refl,
        g3.gained,
        rw (run4, run5) run6,
        Gains-same g6,
      )

-- A program that Reach leads to, and a token that is created from strings and a list of classes to
-- which a variable or an object leads, where no count is close to overflowing: as long as the token
-- is there, each count is higher by the token's pointers to the object. Deleting the token ends
-- without a fault, and each cell of the memory is then as it was before.
pub delete_token-create_token :
    (fuel : ℕ) (s : Program) (left : Pointer) (r : Request)
    → Reach s
    → HasFew s
    → PointsAll s r
    → (t : TokenObject) × (m1 : Memory) × (m2 : Memory) × (create_token left r s.memory
        ≡ done (t, m1))
      × ((k : Kind) (a : ℕ) → refs_at k a m1 ≡ refs_at k a s.memory + count k a (members t))
      × (delete_token (suc fuel) t m1 ≡ done m2)
      × ((x : ℕ) → get m2 x ≡ get s.memory x)
delete_token-create_token fuel s left r reach few points =
    round_trip fuel s (Reach-IsSound reach) few left r points
