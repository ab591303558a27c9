-- ===== src/Memory/Program/Lang.antt =====
-- src/libwebvtt/node.c: the part of `webvtt_create_lang_node` that sets the language of the new node.
use webvtt.Base.{ℕ, ◌-◌, ◌^◌, ◌<◌, ◌≡◌, refl, ap, length}
use webvtt.Memory.{
  InnerKind, Pointer, Memory, Body, string, node, null, at, node_data, internal_data,
}
use webvtt.Memory.Handles.{create, add_reference, no_children, set_lang, release_in_slot}
use webvtt.Memory.Handles.Create.{store-create_new, add_reference-create, release_string-create}
use webvtt.Memory.Handles.Detach.{get-create_new}
use webvtt.Memory.Release.{release_string, release_slot}
use webvtt.Memory.Release.Contents.{load-live}
use webvtt.Memory.Sums.{refs_at, total}
use webvtt.Parser.{done}

-- A node without children.
abbrev pub childless : Pointer → InnerKind → Pointer → Pointer → Pointer → Body
childless parent kind css language annotation =
    node_data parent (internal_data kind css language annotation no_children)

module _ (parent : Pointer) (kind : InnerKind) (css annotation : Pointer) (m : Memory) where
  slot_released :
      {m1 : Memory}
      → release_string 0 m ≡ done m1
      → 1 < refs_at string 0 m
      → release_slot release_in_slot 1
          (length m)
          (create (childless parent kind css (at string 0) annotation) m)
        ≡ done (create (childless parent kind css null annotation) m1)
  unfolding release_slot release_in_slot
  slot_released run used =
      rw
        (
          get-create_new m (childless parent kind css (at string 0) annotation),
          store-create_new m (childless parent kind css (at string 0) annotation)
              (childless parent kind css null annotation),
        )
        (release_string-create 0 m (childless parent kind css null annotation) run used)

  -- The empty string in the slot of the language gives way to another string.
  pub set_lang-create :
      (x : ℕ) {m1 m2 : Memory}
      → release_string 0 m ≡ done m1
      → 1 < refs_at string 0 m
      → add_reference string x m1 ≡ done m2
      → 0 < refs_at string x m1
      → total m1 < 2 ^ 31 - 1
      → length m2 ≡ length m
      → set_lang
          (at node (length m))
          (at string x)
          (create (childless parent kind css (at string 0) annotation) m)
        ≡ done (create (childless parent kind css (at string x) annotation) m2)
  unfolding set_lang
  set_lang-create x {m1} {m2} run used copied there few size =
      let last =
        add_reference-create string x m1 (childless parent kind css null annotation) copied there
          few in
      let found = get-create_new m2 (childless parent kind css null annotation) in
      rw (slot_released run used, last, ← size, load-live node (length m2) _ found refl)
        (ap done (
          store-create_new m2 (childless parent kind css null annotation)
            (childless parent kind css (at string x) annotation)))
