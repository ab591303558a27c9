-- ===== src/Memory/Release/Contents.antt =====
-- The routines of Release.antt that release the contents of a block: each releases its slots, one
-- after the other, from the first to the last.
use webvtt.Base.{ℕ, suc, ◌≡◌, refl, sym, ap, ◌∙◌, some, length}
use webvtt.Memory.{
  Kind, Body, Block, Memory, string, stringlist, node, cue, at, no_data, text_data, timestamp,
  internal_data, string_data, list_data, node_data, cue_data, slots, get, store, kind_of, load,
  deref,
}
use webvtt.Memory.Release.{
  Release, release_slot, release_slots, dropped, drop_reference, release_string, release_items,
  release_stringlist, release_node_data, release_node, release_cue_data, release_cue, release,
}
use webvtt.Memory.Sums.{same_kind_self}
use webvtt.Parser.{Run, done, fault, too_long, out_of_fuel, ◌>>=◌}

-- All slots of a block, whatever its kind.
unfoldable pub release_contents : Release → Body → ℕ → Memory → Run Memory
release_contents rel b a m = release_slots rel (length (slots b)) 0 a m

>>=-done {ℓ} : {A : Type ℓ} (r : Run A) → (r >>= done) ≡ r
>>=-done (done a) = refl
>>=-done fault = refl
>>=-done too_long = refl
>>=-done out_of_fuel = refl

module _ (rel : Release) where
  one_slot : (i a : ℕ) (m : Memory) → release_slots rel 1 i a m ≡ release_slot rel i a m
  unfolding release_slots
  one_slot i a m = >>=-done (release_slot rel i a m)

  pub release_items-contents :
      (b : Body) (a : ℕ) (m : Memory)
      → kind_of b ≡ stringlist
      → release_items rel b a m ≡ release_contents rel b a m
  unfolding release_items release_contents
  release_items-contents (list_data list) a m e = refl
  release_items-contents (string_data _ _) a m e = cc
  release_items-contents (node_data _ _) a m e = cc
  release_items-contents (cue_data _ _ _) a m e = cc

  pub release_node_data-contents :
      (b : Body) (a : ℕ) (m : Memory)
      → kind_of b ≡ node
      → release_node_data rel b a m ≡ release_contents rel b a m
  unfolding release_node_data release_contents release_slots
  release_node_data-contents (node_data p (text_data t)) a m e = sym (one_slot 0 a m)
  release_node_data-contents (node_data p (internal_data _ _ _ _ _)) a m e = refl
  release_node_data-contents (node_data p no_data) a m e = refl
  release_node_data-contents (node_data p (timestamp _)) a m e = refl
  release_node_data-contents (list_data list) a m e = cc
  release_node_data-contents (string_data _ _) a m e = cc
  release_node_data-contents (cue_data _ _ _) a m e = cc

  pub release_cue_data-contents :
      (b : Body) (a : ℕ) (m : Memory)
      → kind_of b ≡ cue
      → release_cue_data rel b a m ≡ release_contents rel b a m
  unfolding release_cue_data release_contents release_slots
  release_cue_data-contents (cue_data _ _ _) a m e = simp (>>=-done)
  release_cue_data-contents (list_data list) a m e = cc
  release_cue_data-contents (string_data _ _) a m e = cc
  release_cue_data-contents (node_data _ _) a m e = cc

release_nothing :
    (rel : Release) (b : Body) (a : ℕ) (m : Memory)
    → kind_of b ≡ string
    → done m ≡ release_contents rel b a m
unfolding release_contents release_slots
release_nothing rel (string_data _ _) a m e = refl
release_nothing rel (list_data list) a m e = cc
release_nothing rel (node_data _ _) a m e = cc
release_nothing rel (cue_data _ _ _) a m e = cc

pub load-live :
    (k : Kind) (a : ℕ) (m : Memory) {b : Block}
    → get m a ≡ some b
    → kind_of b.body ≡ k
    → load k a m ≡ done b
load-live k a m found kind = rw (found, kind, same_kind_self k) refl

-- What the routine of its kind does at a live block.
module _ (k : Kind) (a : ℕ) (m : Memory) {b : Block} (found : get m a ≡ some b)
    (kind : kind_of b.body ≡ k) {r : ℕ} (refs : b.refs ≡ suc r) where
  pub drop_reference-live :
      (contents : Body → ℕ → Memory → Run Memory)
      → drop_reference k contents a m ≡ dropped contents a b m r
  unfolding drop_reference
  drop_reference-live contents =
      ap (λ (x : Run Block). x >>= λ c. deref c.refs >>= dropped contents a c m)
        (load-live k a m found kind)
      ∙ ap (λ (n : ℕ). deref n >>= dropped contents a b m) refs

  -- Contents that are released slot by slot.
  drop_reference-contents :
      (rel : Release) (c : Body → ℕ → Memory → Run Memory)
      → ((d : Body) (e : ℕ) (n : Memory) → kind_of d ≡ k → c d e n ≡ release_contents rel d e n)
      → drop_reference k c a m ≡ dropped (release_contents rel) a b m r
  drop_reference-contents rel c same =
      drop_reference-live c
      ∙ rw (same b.body a (store m a (some (record b { refs = 0 }))) kind) refl

-- The four routines are one: what differs is the order in which the slots are named.
pub release-live :
    (fuel : ℕ) (k : Kind) (a : ℕ) (m : Memory) {b : Block}
    → get m a ≡ some b
    → kind_of b.body ≡ k
    → {r : ℕ} → b.refs ≡ suc r
    → release (suc fuel) (at k a) m ≡ dropped (release_contents (release fuel)) a b m r
unfolding release release_string release_stringlist release_node release_cue
release-live f string a m found kind refs =
    drop_reference-contents string a m found kind refs (release f) (λ _ _ n. done n)
      (release_nothing (release f))
release-live f stringlist a m found kind refs =
    drop_reference-contents stringlist a m found kind refs (release f) (release_items (release f))
      (release_items-contents (release f))
release-live f node a m found kind refs =
    drop_reference-contents node a m found kind refs (release f) (release_node_data (release f))
      (release_node_data-contents (release f))
release-live f cue a m found kind refs =
    drop_reference-contents cue a m found kind refs (release f) (release_cue_data (release f))
      (release_cue_data-contents (release f))
