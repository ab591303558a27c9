-- ===== src/Memory/Program/Operations.antt =====
-- The operations of Program.antt that make new objects and pointers, one by one, where each count is
-- the number of the pointers to its object.
use webvtt.Base.{
  ℕ, suc, ◌+◌, ◌-◌, ◌^◌, ◌≤◌, ◌<◌, ◌≡◌, refl, sym, ap, ◌∙◌, some, arith, List, [], ◌∷◌, ◌++◌,
  length, length-append,
}
use webvtt.Memory.{
  InnerKind, lang, head_node, Kind, Pointer, Memory, string, node, null, at, string_data, list_data,
  node_data, cue_data, text_data, timestamp, internal_data,
}
use webvtt.Memory.Handles.{
  statics, create_string, copy, create_stringlist, create_timestamp_node, create_text_node,
  create_internal_node, create_lang_node, create_head_node, create_cue, no_children,
}
use webvtt.Memory.Program.{Program, Operation, perform, Points, PointsIfAny}
use webvtt.Memory.Handles.Create.{release_string-create}
use webvtt.Memory.Program.Lang.{childless, set_lang-create}
use webvtt.Memory.Program.Steps.{
  IsSound, Gains, Gains-nil, copy-Gains, release-Gains, used_lem, empty_used, Gains-IsSound,
  create-IsSound,
}
use webvtt.Memory.Release.Total.{release-IsCounted}
use webvtt.Memory.Release.{release}
use webvtt.Memory.Sums.{total, tally, count}
use webvtt.Parser.{done}

Points-at : (s : Program) (k : Kind) (a : ℕ) → PointsIfAny s (at k a) → Points s k a
Points-at s k a h = rw h.0 h.1

-- No count can overflow in the next operation.
abbrev pub HasFew : Program → Type 0
HasFew s = total s.memory + 8 < 2 ^ 31 - 1

-- The operation ends without a fault, and leaves the counts right.
abbrev pub Works : Operation → Program → Type 0
Works op s = (s' : Program) × (perform op s ≡ done s') × IsSound s'

module _ (s : Program) (sound : IsSound s) (few : total s.memory + 4 < 2 ^ 31 - 1) where
  pub new_empty_string-Works : Works Operation.new_empty_string s
  unfolding perform
  new_empty_string-Works =
      let (m, run, g) =
        copy-Gains string 0 (Gains-nil s.memory) (empty_used s sound) (omega arith) in
      (_, rw run refl, Gains-IsSound s (at string 0) sound g)

  pub new_string-Works : (alloc : ℕ) → Works (Operation.new_string alloc) s
  unfolding perform create_string
  new_string-Works alloc =
      (_, refl, create-IsSound s (string_data alloc []) sound (Gains-nil s.memory) (λ l c. refl))

  pub new_list-Works : Works Operation.new_list s
  unfolding perform create_stringlist
  new_list-Works =
      (_, refl, create-IsSound s (list_data no_children) sound (Gains-nil s.memory) (λ l c. refl))

  pub new_timestamp_node-Works :
      (parent : Pointer) (t : ℕ) → Works (Operation.new_timestamp_node parent t) s
  unfolding perform create_timestamp_node
  new_timestamp_node-Works parent t = (
    _,
    refl,
    create-IsSound s (node_data parent (timestamp t)) sound (Gains-nil s.memory) (λ l c. refl),
  )

  pub new_text_node-Works :
      (parent : Pointer) (text : ℕ)
      → Points s string text
      → Works (Operation.new_text_node parent text) s
  unfolding perform create_text_node
  new_text_node-Works parent text points =
      let used = used_lem s string text sound points in
      let (m, run, g) = copy-Gains string text (Gains-nil s.memory) used (omega arith) in
      (
        _,
        rw run refl,
        create-IsSound s (node_data parent (text_data (at string text))) sound g (λ l c. refl),
      )

  pub refer-Works : (k : Kind) (a : ℕ) → Points s k a → Works (Operation.refer k a) s
  unfolding perform
  refer-Works k a points =
      let used = used_lem s k a sound points in
      let (m, run, g) = copy-Gains k a (Gains-nil s.memory) used (omega arith) in
      (_, rw run refl, Gains-IsSound s (at k a) sound g)

  -- A list of classes is copied, where there is one.
  copy_any :
      (css : Pointer) {ps : List Pointer} {m : Memory}
      → PointsIfAny s css
      → Gains ps s.memory m
      → length ps < 3
      → (m' : Memory) × (qs : List Pointer) × (copy css m ≡ done m')
        × Gains qs s.memory m'
        × ((l : Kind) (c : ℕ) → count l c qs ≡ tally l c css + count l c ps)
        × (length qs ≤ length ps + 1)
  unfolding copy
  copy_any null {ps} {m} h g short = (m, ps, refl, g, λ l c. omega arith, omega arith)
  copy_any (at k a) {ps} {m} h g short =
      let used = used_lem s k a sound (Points-at s k a h) in
      let (m', run, g') = copy-Gains k a g used (omega arith) in
      (m', at k a ∷ ps, run, g', λ l c. refl, omega arith)

  internal_node :
      (parent : Pointer) (kind : InnerKind) (css : Pointer) (annotation : ℕ)
      → PointsIfAny s css
      → Points s string annotation
      → (p : Pointer) × (m : Memory) × (create_internal_node parent kind css
            (at string annotation)
            s.memory
          ≡ done (p, m))
        × (p ≡ at node (length m - 1))
        × IsSound (record { memory = m; owners = p ∷ s.owners })
  unfolding create_internal_node
  internal_node parent kind css annotation any points =
      let (m1, qs, run1, g1, same, short) = copy_any css any (Gains-nil s.memory) (omega arith) in
      let used = used_lem s string annotation sound points in
      let (m2, run2, g2) = copy-Gains string annotation g1 used (omega arith) in
      let (m3, run3, g3) = copy-Gains string 0 g2 (empty_used s sound) (omega arith) in
      let body =
        node_data parent
          (internal_data kind css (at string 0) (at string annotation) no_children) in
      (
        at node (length m3),
        _,
        rw (run1, run2, run3) refl,
        ap (at node)
            (omega (arith, length-append m3 (some (record { refs = 1; body = body }) ∷ []))),
        create-IsSound s body sound g3 (λ l c. omega (arith, same l c)),
      )

  pub new_internal_node-Works :
      (parent : Pointer) (kind : InnerKind) (css : Pointer) (annotation : ℕ)
      → PointsIfAny s css
      → Points s string annotation
      → Works (Operation.new_internal_node parent kind css annotation) s
  unfolding perform
  new_internal_node-Works parent kind css annotation any points =
      let (p, m, run, _, made) = internal_node parent kind css annotation any points in
      (_, rw run refl, made)

  pub new_lang_node-Works :
      (parent css : Pointer) (language : ℕ)
      → PointsIfAny s css
      → Points s string language
      → Works (Operation.new_lang_node parent css language) s
  unfolding perform create_lang_node create_internal_node
  new_lang_node-Works parent css language any points =
      let e = empty_used s sound in
      let (m1, run1, g1) = copy-Gains string 0 (Gains-nil s.memory) e (omega arith) in
      let (m2, qs, run2, g2, same, short) = copy_any css any g1 (omega arith) in
      let (m3, run3, g3) = copy-Gains string 0 g2 e (omega arith) in
      let (m4, run4, g4) = copy-Gains string 0 g3 e (omega arith) in
      let (m5, run5, g5) = release-Gains 0 g4 e in
      let (m6, run6, g6) = release-Gains 0 g5 e in
      let used = used_lem s string language sound points in
      let (m7, run7, g7) = copy-Gains string language g6 used (omega arith) in
      let plain = childless parent lang css (at string 0) (at string 0) in
      let released = release_string-create 0 m4 plain run5 (omega (arith, g4.gained string 0)) in
      let size4 : length m4 ≡ length m5 = g4.size ∙ sym g5.size in
      let size7 : length m7 ≡ length m5 = g7.size ∙ sym g5.size in
      let set =
        set_lang-create parent lang css (at string 0) m5 language run6
          (omega (arith, g5.gained string 0)) run7 (omega (arith, g6.gained string language))
          (omega (arith, g6.grown)) size7 in
      (
        _,
        rw (run1, run2, run3, run4, released, size4, set, ← size7) refl,
        create-IsSound s (childless parent lang css (at string language) (at string 0)) sound g7
            (λ l c. omega (arith, same l c)),
      )

  pub new_cue-Works : Works Operation.new_cue s
  unfolding perform create_cue
  new_cue-Works =
      let (m1, run1, g1) =
        copy-Gains string 0 (Gains-nil s.memory) (empty_used s sound) (omega arith) in
      let (m2, run2, g2) = copy-Gains string 0 g1 (empty_used s sound) (omega arith) in
      (
        _,
        rw (run1, run2) refl,
        create-IsSound s (cue_data (at string 0) (at string 0) null) sound g2 (λ l c. refl),
      )

-- Two objects more are counted for a moment while a head is made.
pub new_head_node-Works :
    (s : Program) → IsSound s → total s.memory + 5 < 2 ^ 31 - 1 → Works Operation.new_head_node s
unfolding perform create_head_node release
new_head_node-Works s sound few =
    let (m1, run1, g1) =
      copy-Gains string 0 (Gains-nil s.memory) (empty_used s sound) (omega arith) in
    let s1 : Program = record { memory = m1; owners = at string 0 ∷ s.owners } in
    let one = g1.grown in
    let (p, m2, run2, _, made) =
      internal_node s1 (Gains-IsSound s (at string 0) sound g1) (omega arith) null head_node null 0
        tt (omega arith) in
    let (b, m3, _, run3, counted, dead_same, _) =
      release-IsCounted (suc (total m2)) string 0 m2 (statics ++ p ∷ s.owners)
        (λ l c. omega (arith, made.counted l c)) (omega arith) in
    (
      record { memory = m3; owners = p ∷ s.owners },
      rw (run1, run2, run3) refl,
      record { counted = counted; none_dead = dead_same ∙ made.none_dead },
    )
