-- ===== src/Memory/Handles/Create.antt =====
-- References that are gained and lost in a memory do the same in one with an object more behind it.
use webvtt.Base.{
  ℕ, zero, suc, ◌-◌, ◌^◌, ◌<◌, ◌≡◌, refl, ap, ◌∙◌, Option, some, arith, [], ◌∷◌, length,
}
use webvtt.Memory.{Kind, Body, Block, Memory, string, get, store}
use webvtt.Memory.Handles.{create, add_reference}
use webvtt.Memory.Handles.Counted.{add_reference-more, more, low_refs}
use webvtt.Memory.Handles.Detach.{get-create, release_shared}
use webvtt.Memory.Release.{release_string}
use webvtt.Memory.Release.Total.{live, less}
use webvtt.Memory.Sums.{refs_live, refs_at, total}
use webvtt.Parser.{done}

pub store-create :
    (m : Memory) (a : ℕ) (c : Option Block) (body : Body) {b : Block}
    → get m a ≡ some b
    → store (create body m) a c ≡ create body (store m a c)
store-create [] a c body h = cc
store-create (d ∷ m) zero c body h = refl
store-create (d ∷ m) (suc a) c body h = ap (λ (n : Memory). d ∷ n) (store-create m a c body h)

pub store-create_new :
    (m : Memory) (old new : Body)
    → store (create old m) (length m) (some (record { refs = 1; body = new })) ≡ create new m
store-create_new [] old new = refl
store-create_new (d ∷ m) old new = ap (λ (n : Memory). d ∷ n) (store-create_new m old new)

pub add_reference-create :
    (k : Kind) (a : ℕ) (m : Memory) (body : Body) {m' : Memory}
    → add_reference k a m ≡ done m'
    → 0 < refs_at k a m
    → total m < 2 ^ 31 - 1
    → add_reference k a (create body m) ≡ done (create body m')
add_reference-create k a m body {m'} run used few =
    let (b, r, found, kind, refs) = live k a m used in
    let low = low_refs a m found few in
    let same : store m a (some (more b)) ≡ m' =
      let e = add_reference-more k a m found kind low in cc in
    add_reference-more k a (create body m) (get-create m a body found) kind low
    ∙ ap done (store-create m a (some (more b)) body found ∙ ap (create body) same)

pub release_string-create :
    (a : ℕ) (m : Memory) (body : Body) {m' : Memory}
    → release_string a m ≡ done m'
    → 1 < refs_at string a m
    → release_string a (create body m) ≡ done (create body m')
release_string-create a m body {m'} run used =
    let (b, r, found, kind, refs) = live string a m (omega arith) in
    let two : b.refs ≡ suc (suc (r - 1)) = omega (arith, rw kind at (refs_live m a found)) in
    let same : store m a (some (less b (suc (r - 1)))) ≡ m' =
      let e = release_shared a m (r - 1) found kind two in cc in
    release_shared a (create body m) (r - 1) (get-create m a body found) kind two
    ∙ ap done (store-create m a (some (less b (suc (r - 1)))) body found ∙ ap (create body) same)
