-- ===== src/StringData/Replace/Nul.antt =====
-- `webvtt_string_replace_all` (src/libwebvtt/string.c) as the parser calls it: a NUL becomes U+FFFD.
use webvtt.Base.{
  ℕ, zero, suc, ◌+◌, ◌*◌, ◌^◌, ◌≤◌, ◌<◌, ◌≡◌, ◌≢◌, refl, sym, ◌∙◌, ap, inl, inr, Bool-cases, true,
  false, Option, none, some, [], ◌∷◌, ◌++◌, Bytes, ltb, ◌==◌, if◌then◌else◌, length, take, drop,
  All, All-append, length-append, append_assoc, append-nil, arith,
}
use webvtt.StringData.{StringData, grow}
use webvtt.StringData.Bounds.{IsSound, Grown, grow-Grown}
use webvtt.StringData.Replace.{
  memchr, memmem, exchange, exchanged, replaced, string_replace, replace_all_loop,
  string_replace_all,
}

abbrev pub nul : Bytes
nul = 0 ∷ []

-- U+FFFD in UTF-8.
abbrev pub replacement : Bytes
replacement = 0xEF ∷ 0xBF ∷ 0xBD ∷ []

-- Every NUL of a text is U+FFFD.
unfoldable pub substitute : Bytes → Bytes
substitute [] = []
substitute (c ∷ s) = if c == 0 then replacement ++ substitute s else c ∷ substitute s

abbrev pub IsText : Bytes → Type 0
IsText s = All (λ c. c ≢ 0) s

memchr_absent : (s : Bytes) → IsText s → memchr s 0 ≡ none
unfolding memchr
memchr_absent [] h = refl
memchr_absent (c ∷ s) (hc, hs) = rw (memchr_absent s hs) (ground arith)

memchr_found : (pre r : Bytes) → IsText pre → memchr (pre ++ (0 ∷ r)) 0 ≡ some (length pre)
unfolding memchr
memchr_found [] r h = refl
memchr_found (c ∷ pre) r (hc, hs) = rw (memchr_found pre r hs) (ground arith)

memmem-nul : (c : ℕ) (s : Bytes) → memmem (c ∷ s) nul ≡ memchr (c ∷ s) 0
unfolding memmem
memmem-nul c s = ground arith

-- At a text that is not empty, or at none, a NUL is looked for by `memchr`.
memmem_lem : (s : Bytes) → memmem s nul ≡ memchr s 0
memmem_lem [] = unfold memmem memchr in refl
memmem_lem (c ∷ s) = memmem-nul c s

take_length : (a b : Bytes) → take (length a) (a ++ b) ≡ a
take_length [] b = refl
take_length (c ∷ a) b = ap (λ t. c ∷ t) (take_length a b)

drop_length : (a : Bytes) (c : ℕ) (b : Bytes) → drop (suc (length a)) (a ++ (c ∷ b)) ≡ b
drop_length [] c b = refl
drop_length (d ∷ a) c b = drop_length a c b

exchange-nul :
    (pre r : Bytes) (q : StringData)
    → q.text ≡ pre ++ (0 ∷ r)
    → length q.text + 3 ≤ q.alloc
    → exchange nul replacement (length pre) q
      ≡ some (record q { text = pre ++ (replacement ++ r); terminated = true })
unfolding exchange
exchange-nul pre r q t room =
    let one : length pre + length nul ≡ suc (length pre) = omega arith in
    let inside : ltb (q.alloc + 2) (length q.text + length nul) ≡ false = ground arith in
    rw (inside, one, t, take_length pre (0 ∷ r), drop_length pre 0 r) (ground arith)

module _ (header : ℕ) (p : 0 < header) where
  replace_absent :
      (str : StringData)
      → IsText str.text
      → string_replace header str nul replacement ≡ some (false, str)
  unfolding string_replace
  replace_absent str h =
      let none_found : memmem str.text nul ≡ none =
        memmem_lem str.text ∙ memchr_absent str.text h in
      rw (none_found, string_replace) refl

  exchanged-nul :
      (str : StringData) (pre r : Bytes) (o : Option StringData)
      → IsSound str
      → str.text ≡ pre ++ (0 ∷ r)
      → Grown str 3 o
      → (q : StringData) × (replaced (exchanged nul replacement (length pre) o) ≡ some (true, q))
        × (q.text ≡ (pre ++ replacement) ++ r)
        × IsSound q
  unfolding exchanged
  exchanged-nul str pre r none sound e g = absurd g
  exchanged-nul str pre r (some q) sound e (t, room, nul_there, own) =
      let text = pre ++ (replacement ++ r) in
      let size : length q.text ≡ length pre + suc (length r) =
        ap (λ s. length s) (t ∙ e) ∙ length-append pre (0 ∷ r) in
      let longer : length text ≡ length pre + (3 + length r) =
        length-append pre (replacement ++ r) ∙ omega arith in
      (
        record q { text = text; terminated = true },
        rw (exchange-nul pre r q (t ∙ e) (rw t room)) refl,
        sym (append_assoc pre replacement r),
        record { fits = omega (arith, ap (λ s. length s) t); terminated = refl },
      )

  replace_found :
      (str : StringData) (pre r : Bytes)
      → IsSound str
      → IsText pre
      → str.text ≡ pre ++ (0 ∷ r)
      → header + (length str.text + 3) ≤ 2 ^ 31
      → (q : StringData) × (string_replace header str nul replacement ≡ some (true, q))
        × (q.text ≡ (pre ++ replacement) ++ r)
        × IsSound q
  unfolding string_replace
  replace_found str pre r sound h e room =
      let found : memmem str.text nul ≡ some (length pre) =
        memmem_lem str.text ∙ ap (λ s. memchr s 0) e ∙ memchr_found pre r h in
      let (q, eq, t, s) =
        exchanged-nul str pre r (grow header str 3) sound e (grow-Grown header p str 3 room) in
      (q, rw (found, string_replace) eq, t, s)

  replace_step :
      (fuel : ℕ) (str q : StringData)
      → string_replace header str nul replacement ≡ some (true, q)
      → replace_all_loop (suc fuel) header str nul replacement
        ≡ replace_all_loop fuel header q nul replacement
  unfolding replace_all_loop
  replace_step fuel str q e = rw (e, replace_all_loop) refl

  replace_stop :
      (fuel : ℕ) (str : StringData)
      → string_replace header str nul replacement ≡ some (false, str)
      → replace_all_loop (suc fuel) header str nul replacement ≡ some str
  unfolding replace_all_loop
  replace_stop fuel str e = rw (e, replace_all_loop) refl

  -- Behind a part with no NUL left in it.
  replace_all_rest :
      (fuel : ℕ) (str : StringData) (pre rest : Bytes)
      → IsSound str
      → IsText pre
      → str.text ≡ pre ++ rest
      → length rest < fuel
      → header + (length pre + 3 * length rest + 3) ≤ 2 ^ 31
      → (q : StringData) × (replace_all_loop fuel header str nul replacement ≡ some q)
        × (q.text ≡ pre ++ substitute rest)
        × IsSound q
  unfolding substitute
  replace_all_rest zero str pre rest sound h e f room = absurd (omega arith)
  replace_all_rest (suc fuel) str pre [] sound h e f room =
      (str, replace_stop fuel str (replace_absent str (rw (e, append-nil) h)), e, sound)
  replace_all_rest (suc fuel) str pre (c ∷ rest) sound h e f room = elim (Bool-cases (c == 0)) [
    | inl z ↦
        let nul_first : str.text ≡ pre ++ (0 ∷ rest) = e ∙ ground arith in
        let size : length str.text ≡ length pre + suc (length rest) =
          ap (λ s. length s) nul_first ∙ length-append pre (0 ∷ rest) in
        let (q, eq, t, s) = replace_found str pre rest sound h nul_first (omega arith) in
        let (r, er, tr, sr) =
          replace_all_rest fuel q (pre ++ replacement) rest s
            (All-append (λ c. c ≢ 0) pre replacement h (ground arith)) t (omega arith)
            (omega (arith, length-append pre replacement)) in
        (r, replace_step fuel str q eq ∙ er, tr ∙ rw (z, append_assoc) refl, sr)
    | inr other ↦
        let longer = All-append (λ c. c ≢ 0) pre (c ∷ []) h (ground arith) in
        let (r, er, tr, sr) =
          replace_all_rest (suc fuel) str (pre ++ c ∷ []) rest sound longer
            (e ∙ rw append_assoc refl) (omega arith) (omega (arith, length-append pre (c ∷ []))) in
        (r, er, tr ∙ rw (other, append_assoc) refl, sr)
  ]

  -- Let the size of the header, which is not 0, three times the length of a sound string, and 3 be at
  -- most 2 ^ 31 together. Then replacing every NUL by U+FFFD ends, inside the block, with a sound
  -- string that has U+FFFD for each NUL and all other bytes as they were.
  pub string_replace_all-nul :
      (str : StringData)
      → IsSound str
      → header + (3 * length str.text + 3) ≤ 2 ^ 31
      → (q : StringData) × (string_replace_all header str nul replacement ≡ some q)
        × (q.text ≡ substitute str.text)
        × IsSound q
  unfolding string_replace_all
  string_replace_all-nul str sound room =
      replace_all_rest (length str.text + 1) str [] str.text sound tt refl (omega arith)
        (omega arith)
