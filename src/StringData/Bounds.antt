-- ===== src/StringData/Bounds.antt =====
-- The writes of src/libwebvtt/string.c stay inside their blocks.
use webvtt.Base.{
  ℕ, ◌+◌, ◌*◌, ◌%◌, ◌^◌, ◌≤◌, ◌<◌, ◌≡◌, refl, ◌∙◌, ap, ◌⊎◌, inl, inr, Bool-cases, true, false, ◌&&◌,
  ◌||◌, Option, none, some, [], ◌∷◌, ◌++◌, arith, Bytes, leb, ◌==◌, length, length-append,
  append-nil,
}
use webvtt.StringData.{
  StringData, init_string, detach, halve_loop, double_loop, block_size, moved, grow, write_behind,
  putc, append,
}

-- A block that is large enough, and at most twice as large as it has to be unless it is the least.
abbrev pub Fits : ℕ → Option ℕ → Type 0
Fits grow none = ⊥
Fits grow (some n) = (grow ≤ n) × ((n ≤ 2 * grow) ⊎ (n ≡ 64))

-- Any size from 1 to 2 ^ 31 has a block.
pub block_size-Fits : (size : ℕ) → 0 < size → size ≤ 2 ^ 31 → Fits size (block_size size)
unfolding block_size halve_loop double_loop
block_size-Fits size p h = ground arith

-- A string as the operations leave it: its text fits, with a NUL behind it.
pub record IsSound (str : StringData) : Type 0 where
  pub fits : length str.text ≤ str.alloc
  pub terminated : str.terminated ≡ true

pub init_string-IsSound : IsSound init_string
init_string-IsSound = record { fits = omega arith; terminated = refl }

-- What `grow` leaves: the text, with room for `need` bytes more; and the NUL, if there was one.
abbrev pub Grown : StringData → ℕ → Option StringData → Type 0
Grown str need none = ⊥
Grown str need (some q) =
    (q.text ≡ str.text)
    × (length str.text + need ≤ q.alloc)
    × ((str.terminated || q.terminated) ≡ q.terminated)
    × ((q.shared && str.shared) ≡ q.shared)

detach_lem :
    (header : ℕ) (str : StringData)
    → length str.text ≤ str.alloc
    → header + str.alloc < 2 ^ 32
    → (q : StringData) × (detach header str ≡ some q) × (q.text ≡ str.text) × (q.shared ≡ false)
unfolding detach
detach_lem header str fits small = elim (Bool-cases str.shared) [
  | inl own ↦
      let room : leb (header + length str.text) ((header + str.alloc) % 2 ^ 32 + 1) ≡ true =
        ground arith in
      (record str { shared = false; terminated = false }, rw (own, room) refl, refl, refl)
  | inr own ↦ (str, rw own refl, refl, own)
]

module _ (header : ℕ) (p : 0 < header) where
  moved-Grown :
      (str : StringData) (need : ℕ) (o : Option ℕ)
      → Fits (header + (length str.text + need)) o
      → Grown str need (moved header str o)
  moved-Grown str need none h = h
  moved-Grown str need (some n) h = ground arith

  pub grow-Grown :
      (str : StringData) (need : ℕ)
      → header + (length str.text + need) ≤ 2 ^ 31
      → Grown str need (grow header str need)
  unfolding grow
  grow-Grown str need h =
      let small : (header + (length str.text + need)) % 2 ^ 32 ≡ header + (length str.text + need) =
        omega arith in
      let same : (length str.text + need) % 2 ^ 32 ≡ length str.text + need = omega arith in
      rw (small, same)
        (elim (Bool-cases (leb (length str.text + need) str.alloc)) [
          | inl room ↦ rw room ground arith
          | inr full ↦ rw full (moved-Grown str need _ (block_size-Fits _ (omega arith) h))
        ])

  write-Sound :
      (str : StringData) (need : ℕ) (bytes : Bytes) (o : Option StringData)
      → Grown str need o
      → length bytes ≤ need
      → (q : StringData) × (write_behind bytes o ≡ some q)
        × (q.text ≡ str.text ++ bytes)
        × IsSound q
        × ((q.shared && str.shared) ≡ q.shared)
  write-Sound str need bytes none h n = absurd h
  write-Sound str need bytes (some q) (t, room, nul, own) n = (
    record q { text = q.text ++ bytes; terminated = true },
    rw t ground arith,
    rw t refl,
    record { fits = rw t (omega (arith, length-append str.text bytes)); terminated = refl },
    own,
  )

  putc_lem :
      (str q : StringData) (c : ℕ)
      → detach header str ≡ some q
      → putc header str c ≡ write_behind (c ∷ []) (grow header q 1)
  unfolding putc
  putc_lem str q c e = rw (putc, e) refl

  append_cons :
      (str : StringData) (c : ℕ) (s : Bytes)
      → append header str (c ∷ s)
        ≡ write_behind (c ∷ s) (grow header str (length str.text + length (c ∷ s)))
  unfolding append
  append_cons str c s =
      let some_bytes : (length (c ∷ s) == 0) ≡ false = ground arith in rw some_bytes refl

  append_nil : (str : StringData) → append header str [] ≡ some str
  unfolding append
  append_nil str = refl

  -- Let the text of a string fit into its block, whose size with the header, which is not 0, is below
  -- 2 ^ 32, and let the header, the length of the text and one byte more be at most 2 ^ 31 together. Then
  -- appending a byte stays inside the blocks, that of the copy which is made if the string is shared
  -- included, and yields the text with the byte behind it, with a NUL, in a block that is not shared.
  pub putc_total :
      (str : StringData) (c : ℕ)
      → length str.text ≤ str.alloc
      → header + str.alloc < 2 ^ 32
      → header + (length str.text + 1) ≤ 2 ^ 31
      → (q : StringData) × (putc header str c ≡ some q)
        × (q.text ≡ str.text ++ c ∷ [])
        × IsSound q
        × (q.shared ≡ false)
  putc_total str c fits small h =
      let (d, copied, t, own) = detach_lem header str fits small in
      let (q, e, text, sound, o) =
        write-Sound d 1 (c ∷ []) _ (grow-Grown d 1 (rw t h)) (omega arith) in
      (q, putc_lem str d c copied ∙ e, text ∙ ap (λ s. s ++ c ∷ []) t, sound, ground (arith, own))

  -- Let the size of the header, which is not 0, twice the length of a sound string and the number of new bytes be at
  -- most 2 ^ 31 together. Then appending the bytes stays inside the block and yields the one text
  -- behind the other in a sound string.
  pub append_total :
      (str : StringData) (buffer : Bytes)
      → IsSound str
      → header + (length str.text + (length str.text + length buffer)) ≤ 2 ^ 31
      → (q : StringData) × (append header str buffer ≡ some q)
        × (q.text ≡ str.text ++ buffer)
        × IsSound q
  append_total str [] sound h = (str, append_nil str, rw append-nil refl, sound)
  append_total str (c ∷ buffer) sound h =
      let need = length str.text + length (c ∷ buffer) in
      let (q, e, t, s, own) =
        write-Sound str need (c ∷ buffer) _ (grow-Grown str need h) (omega arith) in
      (q, append_cons str c buffer ∙ e, t, s)
