-- ===== src/Memory/Program/Pop.antt =====
-- src/libwebvtt/string.c: `webvtt_stringlist_pop` on the counts, and src/libwebvtt/node.c:
-- `webvtt_init_node`, in a program of Program.antt.
use webvtt.Base.{
  ℕ, zero, suc, ◌+◌, ◌-◌, ◌^◌, ◌<◌, ◌≡◌, refl, ap, ◌∙◌, Option, some, arith, List, [], ◌∷◌, ◌++◌,
  length, get_elem?, take, Option-cases, inl, inr, Bool-cases, ◌==◌,
}
use webvtt.Memory.{
  Kind, Pointer, Body, Block, Memory, string, stringlist, node, at, list_data, slots, kind_of, get,
  store,
}
use webvtt.Memory.Handles.{
  statics, add_reference, pop, popped_item, copy_string, release_in_slot, init_node,
}
use webvtt.Memory.Program.{Program, Operation, perform, forget, holding_any, HasItem}
use webvtt.Memory.Program.Operations.{Works}
use webvtt.Memory.Program.Steps.{IsSound, Gains-nil, copy-Gains, release-Gains, count-forget}
use webvtt.Memory.Release.{release, release_string}
use webvtt.Memory.Release.Contents.{load-live}
use webvtt.Memory.Release.Total.{release-Releases}
use webvtt.Memory.Sums.{tally, count, refs_at, total, is_dead, sum-store, refs-store, slot_count}
use webvtt.Parser.{Run, done, ◌>>=◌}
use webvtt.StringList.{Items, stringlist_pop}

count-take :
    (k : Kind) (c n : ℕ) (ps : List Pointer) {p : Pointer}
    → length ps ≡ suc n
    → get_elem? ps n ≡ some p
    → count k c (take n ps) + tally k c p ≡ count k c ps
count-take k c n [] size h = cc
count-take k c zero (q ∷ []) {p} size h = let e : q ≡ p = cc in rw e (omega arith)
count-take k c zero (q ∷ r ∷ ps) size h = absurd (omega arith)
count-take k c (suc n) (q ∷ ps) size h = omega (arith, count-take k c n ps (omega arith) h)

nonempty : (ps : List Pointer) (i : ℕ) {p : Pointer} → get_elem? ps i ≡ some p → 0 < length ps
nonempty [] i h = cc
nonempty (q ∷ ps) i h = omega arith

tally_self : (x : ℕ) → tally string x (at string x) ≡ 1
tally_self x = ground arith

count-pop :
    (k : Kind) (c : ℕ) (list : Items Pointer) {p : Pointer} {l : Items Pointer}
    → stringlist_pop list ≡ some (p, l)
    → count k c l.items + tally k c p ≡ count k c list.items
unfolding stringlist_pop
count-pop k c list {p} {l} h = elim (Option-cases (get_elem? list.items (length list.items - 1))) [
  | inl gone ↦ let e = rw (gone, stringlist_pop) at h in cc
  | inr (q, last) ↦
      let e : some (q, record list { items = take (length list.items - 1) list.items })
          ≡ some (p, l) =
        rw (last, stringlist_pop) at h in
      let first : q ≡ p = cc in
      let others : record list { items = take (length list.items - 1) list.items } ≡ l = cc in
      let size = nonempty list.items (length list.items - 1) last in
      rw (← others, ← first) (count-take k c (length list.items - 1) list.items (omega arith) last)
]

-- A string out of the slot of a list into a variable.
out_of_list :
    (s : Program) (a : ℕ) {b : Block} (list l : Items Pointer) (x : ℕ)
    → get s.memory a ≡ some b
    → b.body ≡ list_data list
    → stringlist_pop list ≡ some (at string x, l)
    → IsSound s
    → IsSound (record {
      memory = store s.memory a (some (record b { body = list_data l }));
      owners = at string x ∷ s.owners;
    })
out_of_list s a {b} list l x found is out sound = record {
  counted = λ k c.
      let before : count k c (slots b.body) ≡ count k c list.items = rw is refl in
      omega (
        arith,
        sound.counted k c,
        before,
        count-pop k c list out,
        refs-store s.memory a found (some (record b { body = list_data l })) k c (rw is refl),
        sum-store (slot_count k c) s.memory a (some (record b { body = list_data l })) found,
      );
  none_dead = omega (
    arith,
    sound.none_dead,
    sum-store is_dead s.memory a (some (record b { body = list_data l })) found,
  );
}

popped_item_lem :
    (b : Body) (list l : Items Pointer) (p : Pointer)
    → b ≡ list_data list
    → stringlist_pop list ≡ some (p, l)
    → popped_item b ≡ some (p, list_data l)
popped_item_lem b list l p is out = ap popped_item is ∙ rw (out, popped_item) refl

pop_run :
    (a : ℕ) (m : Memory) {b : Block} (body : Body) (x : ℕ) {m1 m2 : Memory}
    → get m a ≡ some b
    → kind_of b.body ≡ stringlist
    → popped_item b.body ≡ some (at string x, body)
    → add_reference string x (store m a (some (record b { body = body }))) ≡ done m1
    → release_string x m1 ≡ done m2
    → pop a m ≡ done (some (at string x), m2)
unfolding pop copy_string release_in_slot
pop_run a m body x found kind out run1 run2 =
    rw (load-live stringlist a m found kind, out, run1, run2) refl

pub pop-Works :
    (s : Program) (a : ℕ)
    → IsSound s
    → total s.memory + 4 < 2 ^ 31 - 1
    → HasItem s.memory a
    → Works (Operation.pop_string a) s
unfolding perform
pop-Works s a sound few (b, list, x, l, found, is, out) =
    let n : Memory = store s.memory a (some (record b { body = list_data l })) in
    let moved = out_of_list s a list l x found is out sound in
    let same = sum-store (λ d. d.refs) s.memory a (some (record b { body = list_data l })) found in
    let used : 0 < refs_at string x n = omega (arith, moved.counted string x, tally_self x) in
    let (m1, run1, g1) = copy-Gains string x (Gains-nil n) used (omega arith) in
    let (m2, run2, g2) = release-Gains x g1 used in
    (
      record { memory = m2; owners = at string x ∷ s.owners },
      ap (λ (r : Run (Option Pointer × Memory)). r >>= λ q. done (holding_any s.owners q.0 q.1))
          (pop_run a s.memory (list_data l) x found (rw is refl)
            (popped_item_lem b.body list l (at string x) is out) run1 run2),
      record {
        counted = λ k c. omega (arith, moved.counted k c, g2.gained k c, g2.held_same k c);
        none_dead = g2.dead_same ∙ moved.none_dead;
      },
    )

-- Once the old node is given up, the pointer to `empty_node` is new.
renewed :
    (s : Program) (a : ℕ)
    → IsSound s
    → total s.memory + 4 < 2 ^ 31 - 1
    → 0 < count node a s.owners
    → (m1 : Memory) × (m2 : Memory) × (release (total s.memory + 1) (at node a) s.memory ≡ done m1)
      × (add_reference node 1 m1 ≡ done m2)
      × IsSound (record { memory = m2; owners = at node 1 ∷ forget node a s.owners })
renewed s a sound few owns =
    let (m1, run1, r) =
      release-Releases (total s.memory + 1) (at node a) s.memory (statics ++ forget node a s.owners)
        (λ l c. omega (arith, sound.counted l c, count-forget node a l c s.owners owns))
        (omega arith) in
    let used : 0 < refs_at node 1 m1 = omega (arith, r.counted node 1) in
    let less = r.fewer in
    let (m2, run2, g) = copy-Gains node 1 (Gains-nil m1) used (omega arith) in
    (
      m1,
      m2,
      run1,
      run2,
      record {
        counted = λ l c. omega (arith, r.counted l c, g.gained l c, g.held_same l c);
        none_dead = g.dead_same ∙ r.dead_same ∙ sound.none_dead;
      },
    )

pub init_node-Works :
    (s : Program) (a : ℕ)
    → IsSound s
    → total s.memory + 4 < 2 ^ 31 - 1
    → 0 < count node a s.owners
    → Works (Operation.init_node_variable a) s
unfolding perform init_node
init_node-Works s a sound few owns =
    let (m1, m2, run1, run2, made) = renewed s a sound few owns in
    elim (Bool-cases (a == 1)) [
      | inl same ↦ (
        record { memory = s.memory; owners = at node a ∷ forget node a s.owners },
        rw same refl,
        record {
          counted = λ l c. omega (arith, sound.counted l c, count-forget node a l c s.owners owns);
          none_dead = sound.none_dead;
        },
      )
      | inr other ↦ (_, rw (other, run1, run2) refl, made)
    ]
