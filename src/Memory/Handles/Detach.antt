-- ===== src/Memory/Handles/Detach.antt =====
-- src/libwebvtt/string.c: `webvtt_string_detach`, before which a string's data may be shared, and
-- behind which it is not.
use webvtt.Base.{
  ℕ, zero, suc, ◌≤◌, ◌≡◌, ◌≢◌, refl, sym, ap, ◌∙◌, none, some, arith, List, [], ◌∷◌, ◌++◌, length,
  ◌⊎◌, inl, inr,
}
use webvtt.Memory.{
  string, Pointer, Body, Block, Memory, at, slots, kind_of, get, store, string_data, list_data,
  node_data, cue_data,
}
use webvtt.Memory.Handles.{create, detach}
use webvtt.Memory.Handles.Counted.{create-IsCounted, create-dead, create-total}
use webvtt.Memory.Release.{release_string}
use webvtt.Memory.Release.Contents.{load-live, drop_reference-live}
use webvtt.Memory.Release.Total.{
  live, owned, less, less-IsCounted, dead-less, total-less, live-is_dead,
}
use webvtt.Memory.Sums.{IsCounted, get-put_self, get-put_other, total, dead}
use webvtt.Parser.{done}

pub get-create :
    (m : Memory) (a : ℕ) (body : Body) {b : Block}
    → get m a ≡ some b
    → get (create body m) a ≡ some b
get-create [] a body h = cc
get-create (d ∷ m) zero body h = h
get-create (d ∷ m) (suc a) body h = get-create m a body h

pub get-create_new :
    (m : Memory) (body : Body)
    → get (create body m) (length m) ≡ some (record { refs = 1; body = body })
get-create_new [] body = refl
get-create_new (d ∷ m) body = get-create_new m body

get_new : (m : Memory) → get m (length m) ≡ none
get_new [] = refl
get_new (d ∷ m) = get_new m

below : (m : Memory) {a : ℕ} {b : Block} → get m a ≡ some b → a ≢ length m
below m {a} found e = let gone : get m a ≡ none = rw e (get_new m) in cc

pub no_slots : (b : Body) → kind_of b ≡ string → slots b ≡ []
no_slots (string_data _ _) h = refl
no_slots (list_data _) h = cc
no_slots (node_data _ _) h = cc
no_slots (cue_data _ _ _) h = cc

-- A copy of the data beside the data.
both-IsCounted :
    (a : ℕ) (m : Memory) (b : Body) (owners : List Pointer)
    → kind_of b ≡ string
    → IsCounted (at string a ∷ owners) m
    → IsCounted (at string a ∷ at string (length m) ∷ owners) (create b m)
both-IsCounted a m b owners kind counted l c =
    let moved : IsCounted (slots b ++ at string a ∷ owners) m = rw (no_slots b kind) counted in
    let h = create-IsCounted b m (at string a ∷ owners) moved l c in omega (arith, rw kind at h)

pub release_shared :
    (a : ℕ) (n : Memory) {b : Block} (r : ℕ)
    → get n a ≡ some b
    → kind_of b.body ≡ string
    → b.refs ≡ suc (suc r)
    → release_string a n ≡ done (store n a (some (less b (suc r))))
unfolding release_string
release_shared a n r found kind refs =
    drop_reference-live string a n found kind refs (λ _ _ m. done m) ∙ ground arith

-- What `detach` leaves of a memory in which the string's data is at `a`: its new place, where the data
-- has one reference and is what it was; and in the other places what was there, but for one reference
-- to the data that was shared.
pub record Detached (owners : List Pointer) (a : ℕ) (b : Block) (m : Memory) (p : Pointer)
    (m' : Memory) : Type 0 where
  pub place : ℕ
  pub result : p ≡ at string place
  pub alone : get m' place ≡ some (record { refs = 1; body = b.body })
  pub others : (c : ℕ) {d : Block} → c ≢ a → get m c ≡ some d → get m' c ≡ some d
  pub shared : (place ≡ a) ⊎ ((r : ℕ) × (b.refs ≡ suc (suc r)) × (get m' a ≡ some (less b (suc r))))
  pub counted : IsCounted (p ∷ owners) m'
  pub dead_same : dead m' ≡ dead m
  pub grown : total m' ≤ total m

-- The string whose data has `r + 1` references.
detached :
    (a : ℕ) (m : Memory) {b : Block} (r : ℕ)
    → get m a ≡ some b
    → kind_of b.body ≡ string
    → b.refs ≡ suc r
    → (owners : List Pointer) → IsCounted (at string a ∷ owners) m
    → (p : Pointer) × (m' : Memory) × (detach a m ≡ done (p, m')) × Detached owners a b m p m'
unfolding detach
detached a m {b} zero found kind refs owners counted = (
  at string a,
  m,
  rw (load-live string a m found kind) (ground arith),
  record {
    place = a;
    result = refl;
    alone = found ∙ ap some (ground arith);
    others = λ c other there. there;
    shared = inl refl;
    counted = counted;
    dead_same = refl;
    grown = omega arith;
  },
)
detached a m {b} (suc r) found kind refs owners counted =
    let n : Memory = create b.body m in
    let there = get-create m a b.body found in
    let both : IsCounted (at string a ∷ at string (length m) ∷ owners) n =
      both-IsCounted a m b.body owners kind counted in
    let released = release_shared a n r there kind refs in
    (
      at string (length m),
      store n a (some (less b (suc r))),
      rw (load-live string a m found kind, released) (ground arith),
      record {
        place = length m;
        result = refl;
        alone = get-put_other n a (length m) _ (below m found) ∙ get-create_new m b.body;
        others = λ c other h. get-put_other n a c _ (λ e. other (sym e)) ∙ get-create m c b.body h;
        shared = inr (r, refs, get-put_self n a _ there);
        counted = less-IsCounted string a n there kind refs (at string (length m) ∷ owners) both;
        dead_same = omega (
          arith,
          dead-less string a n there kind refs,
          live-is_dead (less b (suc r)) refl,
          create-dead b.body m,
        );
        grown = omega (arith, total-less string a n there kind refs, create-total b.body m);
      },
    )

-- A string in a memory where each count is the number of the pointers to its object: `detach` ends, and
-- the string's data is then at a place where it has one reference and is what it was. That is its old
-- place, or the old data had two references or more and has lost one of them. All other blocks
-- are as they were, and each count is again the number of the pointers to its object.
pub detach-Detached :
    (a : ℕ) (m : Memory) (owners : List Pointer)
    → IsCounted (at string a ∷ owners) m
    → (b : Block) × (p : Pointer) × (m' : Memory) × (get m a ≡ some b)
      × (detach a m ≡ done (p, m'))
      × Detached owners a b m p m'
detach-Detached a m owners counted =
    let (b, r, found, kind, refs) = live string a m (owned string a m owners counted) in
    let (p, m', run, d) = detached a m r found kind refs owners counted in (b, p, m', found, run, d)
