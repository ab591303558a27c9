-- ===== src/Memory/Release/Loop.antt =====
-- The loops of Release.antt over the slots of a block whose count is zero: given a routine that
-- releases what a pointer leads to, all of the block's pointers are released and the block stays,
-- with its slots empty.
use webvtt.Base.{
  ℕ, zero, suc, ◌+◌, ◌≤◌, ◌<◌, ◌≡◌, ◌≢◌, refl, sym, subst, ◌∙◌, some, arith, List, [], ◌∷◌, length,
  get_elem?,
}
use webvtt.Memory.{
  Kind, Pointer, Body, Block, Memory, null, string_data, list_data, node_data, cue_data, no_data,
  text_data, timestamp, internal_data, slots, kind_of, get, store,
}
use webvtt.Memory.Release.{Release, clear, clear_item, release_slot, release_slots}
use webvtt.Memory.Sums.{
  IsCounted, tally, count, sum-store, get-put_self, get-put_other, refs-store, slot_count,
  cell_refs, total, dead, is_dead,
}
use webvtt.Parser.{done}

pub slots-clear : (i : ℕ) (b : Body) → slots (clear i b) ≡ clear_item i (slots b)
slots-clear i (string_data _ _) = refl
slots-clear i (list_data _) = refl
slots-clear i (node_data _ no_data) = refl
slots-clear zero (node_data _ (text_data _)) = refl
slots-clear (suc i) (node_data _ (text_data _)) = refl
slots-clear i (node_data _ (timestamp _)) = refl
slots-clear zero (node_data _ (internal_data _ _ _ _ _)) = refl
slots-clear (suc zero) (node_data _ (internal_data _ _ _ _ _)) = refl
slots-clear (suc (suc zero)) (node_data _ (internal_data _ _ _ _ _)) = refl
slots-clear (suc (suc (suc i))) (node_data _ (internal_data _ _ _ _ _)) = refl
slots-clear zero (cue_data _ _ _) = refl
slots-clear (suc zero) (cue_data _ _ _) = refl
slots-clear (suc (suc zero)) (cue_data _ _ _) = refl
slots-clear (suc (suc (suc i))) (cue_data _ _ _) = refl

kind-clear : (i : ℕ) (b : Body) → kind_of (clear i b) ≡ kind_of b
kind-clear i (string_data _ _) = refl
kind-clear i (list_data _) = refl
kind-clear i (node_data _ _) = refl
kind-clear zero (cue_data _ _ _) = refl
kind-clear (suc zero) (cue_data _ _ _) = refl
kind-clear (suc (suc zero)) (cue_data _ _ _) = refl
kind-clear (suc (suc (suc i))) (cue_data _ _ _) = refl

count-clear :
    (k : Kind) (a i : ℕ) (ps : List Pointer) {p : Pointer}
    → get_elem? ps i ≡ some p
    → count k a (clear_item i ps) + tally k a p ≡ count k a ps
count-clear k a i [] h = cc
count-clear k a zero (q ∷ ps) {p} h = let e : q ≡ p = cc in rw e (omega arith)
count-clear k a (suc i) (q ∷ ps) h = omega (arith, count-clear k a i ps h)

length-clear : (i : ℕ) (ps : List Pointer) → length (clear_item i ps) ≡ length ps
length-clear i [] = refl
length-clear zero (p ∷ ps) = refl
length-clear (suc i) (p ∷ ps) = omega (arith, length-clear i ps)

-- The first `i` slots are null.
abbrev pub Spent : ℕ → List Pointer → Type 0
Spent zero ps = Unit
Spent (suc i) [] = Unit
Spent (suc i) (p ∷ ps) = (p ≡ null) × Spent i ps

Spent-clear : (i : ℕ) (ps : List Pointer) → Spent i ps → Spent (suc i) (clear_item i ps)
Spent-clear i [] h = tt
Spent-clear zero (p ∷ ps) h = (refl, tt)
Spent-clear (suc i) (p ∷ ps) h = (h.0, Spent-clear i ps h.1)

pub Spent-count : (k : Kind) (a : ℕ) (ps : List Pointer) → Spent (length ps) ps → count k a ps ≡ 0
Spent-count k a [] h = refl
Spent-count k a (p ∷ ps) h = rw h.0 (omega (arith, Spent-count k a ps h.1))

Spent_at : (i : ℕ) {j : ℕ} (ps : List Pointer) → i ≡ j → Spent i ps → Spent j ps
Spent_at i ps e h = subst (λ (x : ℕ). Spent x ps) e h

get_elem-exists :
    (ps : List Pointer) (i : ℕ) → i < length ps → (p : Pointer) × (get_elem? ps i ≡ some p)
get_elem-exists [] i h = elim h [ ]
get_elem-exists (p ∷ ps) zero h = (p, refl)
get_elem-exists (p ∷ ps) (suc i) h = get_elem-exists ps i (omega arith)

-- What a release leaves: each count is the number of the pointers, as many counts are zero as before,
-- and the blocks whose count is zero are as they were.
pub record Released (owners : List Pointer) (m m' : Memory) : Type 0 where
  pub counted : IsCounted owners m'
  pub dead_same : dead m' ≡ dead m
  pub fewer : total m' ≤ total m
  pub kept : (a : ℕ) {b : Block} → get m a ≡ some b → b.refs ≡ 0 → get m' a ≡ some b

-- In a memory where the counts sum up to less than the bound, the pointer given is released.
abbrev pub Releases : Release → ℕ → Type 0
Releases rel bound =
    (p : Pointer) (m : Memory) (owners : List Pointer)
    → IsCounted (p ∷ owners) m
    → total m < bound
    → (m' : Memory) × (rel p m ≡ done m') × Released owners m m'

-- The same for the slots of a block, of which the first `i` are null in the end.
pub record Emptied (a i : ℕ) (b : Block) (owners : List Pointer) (m m' : Memory) : Type 0 where
  pub now : Block
  pub found : get m' a ≡ some now
  pub refs : now.refs ≡ 0
  pub size : length (slots now.body) ≡ length (slots b.body)
  pub spent : Spent i (slots now.body)
  pub counted : IsCounted owners m'
  pub dead_same : dead m' ≡ dead m
  pub fewer : total m' ≤ total m
  pub kept : (c : ℕ) {d : Block} → c ≢ a → get m c ≡ some d → d.refs ≡ 0 → get m' c ≡ some d

module _ (a i : ℕ) (m : Memory) {b : Block} (found : get m a ≡ some b) {p : Pointer}
    (slot : get_elem? (slots b.body) i ≡ some p) where
  block_cleared : Block
  block_cleared = record b { body = clear i b.body }

  -- The pointer moves from the slot into a variable.
  block_cleared-IsCounted :
      (owners : List Pointer)
      → IsCounted owners m
      → IsCounted (p ∷ owners) (store m a (some block_cleared))
  unfolding block_cleared
  block_cleared-IsCounted owners h k c =
      let same : cell_refs k (some block_cleared) ≡ cell_refs k (some b) =
        rw (kind-clear i b.body) refl in
      let slots : count k c (slots (clear i b.body)) + tally k c p ≡ count k c (slots b.body) =
        rw (slots-clear i b.body) (count-clear k c i (slots b.body) slot) in
      omega (
        arith,
        h k c,
        refs-store m a found (some block_cleared) k c same,
        sum-store (slot_count k c) m a (some block_cleared) found,
        slots,
      )

  block_cleared-sums :
      (dead (store m a (some block_cleared)) ≡ dead m)
      × (total (store m a (some block_cleared)) ≡ total m)
  unfolding block_cleared
  block_cleared-sums = (
    omega (arith, sum-store is_dead m a (some block_cleared) found),
    omega (arith, sum-store (λ d. d.refs) m a (some block_cleared) found),
  )

module _ (rel : Release) (bound : ℕ) (works : Releases rel bound) (a : ℕ)
    (owners : List Pointer) where
  release_slot-Emptied :
      (i : ℕ) (m : Memory) {b : Block} {p : Pointer}
      → get m a ≡ some b
      → get_elem? (slots b.body) i ≡ some p
      → b.refs ≡ 0
      → Spent i (slots b.body)
      → IsCounted owners m
      → total m < bound
      → (m' : Memory) × (release_slot rel i a m ≡ done m') × Emptied a (suc i) b owners m m'
  unfolding release_slot block_cleared
  release_slot-Emptied i m {b} {p} found slot refs spent counted low =
      let n : Memory = store m a (some (block_cleared a i m found slot)) in
      let (same_dead, same_total) = block_cleared-sums a i m found slot in
      let (m', e, r) =
        works p n owners (block_cleared-IsCounted a i m found slot owners counted) (omega arith) in
      let now : get n a ≡ some (block_cleared a i m found slot) =
        get-put_self m a (some (block_cleared a i m found slot)) found in
      (
        m',
        rw (found, slot) e,
        record {
          now = block_cleared a i m found slot;
          found = r.kept a now refs;
          refs = refs;
          size = rw (slots-clear i b.body) (length-clear i (slots b.body));
          spent = rw (slots-clear i b.body) (Spent-clear i (slots b.body) spent);
          counted = r.counted;
          dead_same = r.dead_same ∙ same_dead;
          fewer = omega (arith, r.fewer);
          kept = λ c other there zero.
              r.kept c (get-put_other m a c _ (λ e. other (sym e)) ∙ there) zero;
        },
      )

  pub release_slots-Emptied :
      (n i : ℕ) (m : Memory) {b : Block}
      → get m a ≡ some b
      → i + n ≡ length (slots b.body)
      → b.refs ≡ 0
      → Spent i (slots b.body)
      → IsCounted owners m
      → total m < bound
      → (m' : Memory) × (release_slots rel n i a m ≡ done m') × Emptied a (i + n) b owners m m'
  unfolding release_slots
  release_slots-Emptied zero i m {b} found all refs spent counted low = (
    m,
    refl,
    record {
      now = b;
      found = found;
      refs = refs;
      size = refl;
      spent = Spent_at i (slots b.body) (omega arith) spent;
      counted = counted;
      dead_same = refl;
      fewer = omega arith;
      kept = λ c other there zero. there;
    },
  )
  release_slots-Emptied (suc n) i m {b} found all refs spent counted low =
      let (p, slot) = get_elem-exists (slots b.body) i (omega arith) in
      let (m1, e, r) = release_slot-Emptied i m found slot refs spent counted low in
      let size = r.size in
      let less = r.fewer in
      let next : Spent (i + 1) (slots r.now.body) =
        Spent_at (suc i) (slots r.now.body) (omega arith) r.spent in
      let (m2, f, s) =
        release_slots-Emptied n (i + 1) m1 r.found (omega arith) r.refs next r.counted
          (omega arith) in
      (
        m2,
        rw e f,
        record {
          now = s.now;
          found = s.found;
          refs = s.refs;
          size = s.size ∙ r.size;
          spent = Spent_at (i + 1 + n) (slots s.now.body) (omega arith) s.spent;
          counted = s.counted;
          dead_same = s.dead_same ∙ r.dead_same;
          fewer = omega (arith, s.fewer, r.fewer);
          kept = λ c other there zero. s.kept c other (r.kept c other there zero) zero;
        },
      )
