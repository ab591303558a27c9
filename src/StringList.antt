-- ===== src/StringList.antt =====
-- src/libwebvtt/string.c: lists of strings, and src/libwebvtt/node.c: `webvtt_attach_node`, which
-- grows the array of children by the same rule. An array is its capacity and the items in use; a
-- write outside the block of the array is `none`. Capacities are 32-bit numbers, and so is the number of
-- bytes that `webvtt_alloc0` is asked for, so that the block may be smaller than the capacity says.
-- Pointers are of 8 bytes. Memory does not run out.
use webvtt.Base.{
  ℕ, ◌+◌, ◌-◌, ◌*◌, ◌/◌, ◌%◌, ◌^◌, ◌≤◌, ◌<◌, ◌≡◌, refl, ap, ◌⊎◌, true, Option, none, some, List, [],
  ◌∷◌, ◌++◌, arith, leb, ltb, ◌==◌, if◌then◌else◌, length, length-append, take, get_elem?,
}

abbrev pointer_size : ℕ
pointer_size = 8

-- The pointers that the block of an array has room for: `webvtt_alloc0( sizeof( *items ) * alloc )`.
abbrev block_room : ℕ → ℕ
block_room alloc = pointer_size * alloc % 2 ^ 32 / pointer_size

pub record Items {ℓ} (A : Type ℓ) : Type ℓ where
  pub alloc : ℕ
  pub items : List A

module _ {ℓ} {A : Type ℓ} where
  -- `items[ length++ ] = item`.
  abbrev put : Items A → A → Option (Items A)
  put list item =
      if ltb (length list.items) (block_room list.alloc)
      then some (record list { items = list.items ++ item ∷ [] })
      else none

  -- The array is doubled once two thirds of it are in use.
  make_room : Items A → Items A
  make_room list =
      if leb (list.alloc / 3 * 2) (length list.items + 1)
      then record list { alloc = if list.alloc == 0 then 8 else list.alloc * 2 % 2 ^ 32 }
      else list

  unfoldable pub stringlist_push : Items A → A → Option (Items A)
  unfolding make_room
  stringlist_push list str = put (make_room list) str

  -- The last item, and the list without it, where there is one.
  unfoldable pub stringlist_pop : Items A → Option (A × Items A)
  stringlist_pop list = elim (get_elem? list.items (length list.items - 1)) [
    | none ↦ none
    | some out ↦ some (out, record list { items = take (length list.items - 1) list.items })
  ]

  abbrev first_children : Items A → Items A
  first_children nd = if nd.alloc == 0 then record nd { alloc = 8 } else nd

  child_room : Items A → Items A
  child_room nd =
      if leb (nd.alloc / 3 * 2) (length nd.items + 1)
      then record nd { alloc = nd.alloc * 2 % 2 ^ 32 }
      else nd

  unfoldable pub attach_child : Items A → A → Option (Items A)
  unfolding child_room
  attach_child parent to_attach = put (child_room (first_children parent)) to_attach

  -- The items fit into the array, which is not so large that the size of one twice as long overflows.
  pub record HasRoom (list : Items A) : Type 0 where
    pub fits : length list.items ≤ list.alloc
    pub small : list.alloc < 2 ^ 28

  -- Room for one item more, in an array that has at most doubled.
  abbrev Roomy : Items A → Items A → Type ℓ
  Roomy old new =
      (new.items ≡ old.items)
      × (length old.items < block_room new.alloc)
      × (new.alloc < 2 ^ 29)
      × (old.alloc ≤ new.alloc)
      × ((new.alloc ≤ 2 * old.alloc) ⊎ (new.alloc ≤ 16))

  make_room-Roomy : (list : Items A) → HasRoom list → Roomy list (make_room list)
  unfolding make_room
  make_room-Roomy list h = (
    ground arith,
    ground (arith, h.fits, h.small),
    ground (arith, h.fits, h.small),
    ground (arith, h.fits, h.small),
    ground (arith, h.fits, h.small),
  )

  child_room-Roomy : (list : Items A) → HasRoom list → Roomy list (child_room (first_children list))
  unfolding child_room
  child_room-Roomy list h = (
    ground arith,
    ground (arith, h.fits, h.small),
    ground (arith, h.fits, h.small),
    ground (arith, h.fits, h.small),
    ground (arith, h.fits, h.small),
  )

  put-Roomy :
      (list new : Items A) (item : A)
      → Roomy list new
      → (l : Items A) × (put new item ≡ some l)
        × (l.items ≡ list.items ++ item ∷ [])
        × (length l.items ≤ l.alloc)
        × (list.alloc ≤ l.alloc)
        × ((l.alloc ≤ 2 * list.alloc) ⊎ (l.alloc ≤ 16))
  put-Roomy list new item (same, room, small, more, bound) =
      let fits : ltb (length new.items) (block_room new.alloc) ≡ true = rw same (ground arith) in
      (
        record new { items = new.items ++ item ∷ [] },
        rw fits refl,
        rw same refl,
        rw same (omega (arith, length-append list.items (item ∷ []))),
        more,
        bound,
      )

  -- Where the items fit into an array of a capacity below 2 ^ 28, a push writes inside the block; the
  -- items then are the old ones with the new one behind them, they fit, and the capacity is at least
  -- what it was, and at most twice that or 16.
  pub stringlist_push_total :
      (list : Items A) (str : A)
      → HasRoom list
      → (l : Items A) × (stringlist_push list str ≡ some l)
        × (l.items ≡ list.items ++ str ∷ [])
        × (length l.items ≤ l.alloc)
        × (list.alloc ≤ l.alloc)
        × ((l.alloc ≤ 2 * list.alloc) ⊎ (l.alloc ≤ 16))
  unfolding stringlist_push
  stringlist_push_total list str h = put-Roomy list _ str (make_room-Roomy list h)

  -- Where the children of a node fit into an array of a capacity below 2 ^ 28, attaching a child writes
  -- inside the block; the children then are the old ones with the new one behind them, they fit, and
  -- the capacity is at least what it was, and at most twice that or 16.
  pub attach_child_total :
      (list : Items A) (child : A)
      → HasRoom list
      → (l : Items A) × (attach_child list child ≡ some l)
        × (l.items ≡ list.items ++ child ∷ [])
        × (length l.items ≤ l.alloc)
        × (list.alloc ≤ l.alloc)
        × ((l.alloc ≤ 2 * list.alloc) ⊎ (l.alloc ≤ 16))
  unfolding attach_child
  attach_child_total list child h = put-Roomy list _ child (child_room-Roomy list h)

  last_item : (xs : List A) (x : A) → get_elem? (xs ++ x ∷ []) (length xs) ≡ some x
  last_item [] x = refl
  last_item (y ∷ xs) x = last_item xs x

  but_last : (xs : List A) (x : A) → take (length xs) (xs ++ x ∷ []) ≡ xs
  but_last [] x = refl
  but_last (y ∷ xs) x = ap (λ t. y ∷ t) (but_last xs x)

  -- Where the items of a list fit into an array of a capacity below 2 ^ 28, what is pushed to the list is
  -- popped from it, and the items are then those it had.
  pub pop-push :
      (list pushed : Items A) (str : A)
      → stringlist_push list str ≡ some pushed
      → HasRoom list
      → stringlist_pop pushed ≡ some (str, record pushed { items = list.items })
  unfolding stringlist_pop
  pop-push list pushed str e h =
      let (l, e', items, fits, more, bound) = stringlist_push_total list str h in
      let same : pushed.items ≡ list.items ++ str ∷ [] = cc in
      let size : length pushed.items - 1 ≡ length list.items =
        omega (arith, ap (λ t. length t) same, length-append list.items (str ∷ [])) in
      let last : get_elem? pushed.items (length pushed.items - 1) ≡ some str =
        rw size (rw same (last_item list.items str)) in
      let others : take (length pushed.items - 1) pushed.items ≡ list.items =
        rw size (rw same (but_last list.items str)) in
      rw (stringlist_pop, last, others) refl
