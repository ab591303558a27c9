-- ===== src/Memory/Program/Changes.antt =====
-- The operations of Program.antt that release, detach and fill objects, one by one, where each count is
-- the number of the pointers to its object.
use webvtt.Base.{ℕ, ◌+◌, ◌-◌, ◌^◌, ◌<◌, ◌≡◌, refl, ◌∙◌, arith, List, [], ◌∷◌, ◌++◌}
use webvtt.Memory.{Kind, Pointer, string, stringlist, node, at, list_data, node_data, internal_data}
use webvtt.Memory.Handles.{statics, push, attach_node}
use webvtt.Memory.Program.{Program, Operation, perform, forget, Points, HasList, HasInner}
use webvtt.Memory.Program.Steps.{IsSound, count-forget, fill-IsSound}
use webvtt.Memory.Release.Total.{release-IsCounted}
use webvtt.Memory.Handles.Counted.{count-append}
use webvtt.Memory.Release.Contents.{load-live}
use webvtt.Memory.Handles.Detach.{detach-Detached}
use webvtt.Memory.Sums.{IsCounted, total, tally, count}
use webvtt.StringList.{stringlist_push_total, attach_child_total}
use webvtt.Memory.Program.Operations.{Works}

count-snoc :
    (k : Kind) (a : ℕ) (ps qs : List Pointer) (p : Pointer)
    → qs ≡ ps ++ p ∷ []
    → count k a qs ≡ count k a ps + tally k a p
count-snoc k a ps qs p e = rw e (omega (arith, count-append k a ps (p ∷ [])))

module _ (s : Program) (sound : IsSound s) (few : total s.memory + 4 < 2 ^ 31 - 1) where
  without :
      (k : Kind) (a : ℕ)
      → 0 < count k a s.owners
      → IsCounted (at k a ∷ statics ++ forget k a s.owners) s.memory
  without k a owns l c = omega (arith, sound.counted l c, count-forget k a l c s.owners owns)

  pub drop-Works : (k : Kind) (a : ℕ) → 0 < count k a s.owners → Works (Operation.drop k a) s
  unfolding perform
  drop-Works k a owns =
      let (b, m, found, run, counted, dead_same, left) =
        release-IsCounted (total s.memory + 1) k a s.memory (statics ++ forget k a s.owners)
          (without k a owns) (omega arith) in
      (
        record { memory = m; owners = forget k a s.owners },
        rw run refl,
        record { counted = counted; none_dead = dead_same ∙ sound.none_dead },
      )

  pub detach-Works : (a : ℕ) → 0 < count string a s.owners → Works (Operation.detach_string a) s
  unfolding perform
  detach-Works a owns =
      let (b, p, m, found, run, d) =
        detach-Detached a s.memory (statics ++ forget string a s.owners) (without string a owns) in
      (
        record { memory = m; owners = p ∷ forget string a s.owners },
        rw run refl,
        record {
          counted = λ l c. omega (arith, d.counted l c);
          none_dead = d.dead_same ∙ sound.none_dead;
        },
      )

  pub push-Works :
      (a str : ℕ) → HasList s.memory a → Points s string str → Works (Operation.push_string a str) s
  unfolding perform push
  push-Works a str (b, list, found, is, room) points =
      let (l, runs, items, _, _, _) = stringlist_push_total list (at string str) room in
      let (m, run, made) =
        fill-IsSound s a (list_data l) string str found (rw is refl)
          (λ k c. rw is (count-snoc k c list.items l.items (at string str) items)) sound points
          (omega arith) in
      (_, rw (load-live stringlist a s.memory found (rw is refl), is, runs, run) refl, made)

  pub attach-Works :
      (a child : ℕ)
      → HasInner s.memory a
      → Points s node child
      → Works (Operation.attach_child_node a child) s
  unfolding perform attach_node
  attach-Works a child (b, up, k, c, l, n, nd, found, is, room) points =
      let (nd', runs, items, _, _, _) = attach_child_total nd (at node child) room in
      let (m, run, made) =
        fill-IsSound s a (node_data up (internal_data k c l n nd')) node child found (rw is refl)
          (λ j d. rw is (omega (arith, count-snoc j d nd.items nd'.items (at node child) items)))
          sound points (omega arith) in
      (_, rw (load-live node a s.memory found (rw is refl), is, runs, run) refl, made)
