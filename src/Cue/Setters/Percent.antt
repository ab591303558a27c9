-- ===== src/Cue/Setters/Percent.antt =====
-- What src/libwebvtt/cue.c takes for a percentage, in `position` and `size`.
use webvtt.Base.{
  ℕ, ◌+◌, ◌%◌, ◌^◌, ◌≤◌, ◌<◌, ◌≡◌, ◌≢◌, refl, ap, ◌⊎◌, inl, inr, Bool, Bool-cases, true, false,
  none, some, Option-cases, [], ◌∷◌, ◌++◌, Bytes, arith, ltb, ◌==◌, if◌then◌else◌, length, peek,
}
use webvtt.Cue.{Cue}
use webvtt.Cue.Setters.{
  count_digits, is_percent, has_tail, is_found, percentage, set_position, set_size, to_32,
}
use webvtt.Status.{success, bad_position, already_position, bad_size, already_size}
use webvtt.Text.{isdigit, strchr}
use webvtt.Timestamp.{word_64, exceeds}
use webvtt.Timestamp.Digits.{IsDigits, value, parse_int_digits}

abbrev pub percent : Bytes → Bytes
percent ds = ds ++ b'%' ∷ []

digit_not_percent : (c : ℕ) → isdigit c ≡ true → (c == b'%') ≡ false
unfolding isdigit
digit_not_percent c h = ground arith

count_percent : (ds : Bytes) → IsDigits ds → count_digits is_percent (percent ds) ≡ some (length ds)
unfolding count_digits
count_percent [] h = refl
count_percent (c ∷ ds) (hc, hs) = rw (count_percent ds hs, hc) (ground arith)

strchr-percent : (ds : Bytes) → IsDigits ds → strchr (percent ds) b'%' ≡ some (b'%' ∷ [])
unfolding strchr
strchr-percent [] h = refl
strchr-percent (c ∷ ds) (hc, hs) = rw (digit_not_percent c hc) (strchr-percent ds hs)

percentage_digits :
    (ds : Bytes)
    → IsDigits ds
    → ds ≢ []
    → percentage (percent ds)
      ≡ (if exceeds (value ds % word_64) 100 then none else some (value ds % word_64))
unfolding percentage
percentage_digits [] h ne = absurd (ne refl)
percentage_digits (c ∷ ds) h ne =
    rw
      (
        count_percent (c ∷ ds) h,
        strchr-percent (c ∷ ds) h,
        parse_int_digits (c ∷ ds) (b'%' ∷ []) h ne (unfold isdigit in refl),
      )
      (ground arith)

count_cons :
    (other : ℕ → Bool) (c : ℕ) (v : Bytes) (k : ℕ)
    → count_digits other (c ∷ v) ≡ some k
    → (j : ℕ) × (count_digits other v ≡ some j)
      × (((isdigit c ≡ true) × (k ≡ j + 1)) ⊎ ((isdigit c ≡ false) × (other c ≡ true) × (k ≡ j)))
unfolding count_digits
count_cons other c v k h = elim (Option-cases (count_digits other v)) [
  | inl e ↦ cc
  | inr (j, e) ↦ (j, e, ground arith)
]

-- A percent sign with no byte behind it.
count_nul : (v : Bytes) (k : ℕ) → count_digits is_percent v ≡ some k → (peek v == 0) ≡ true → v ≡ []
count_nul [] k n z = refl
count_nul (c ∷ v) k n z =
    let (j, e, either) = count_cons is_percent c v k n in absurd (unfold isdigit in ground arith)

-- Digits and percent signs, of which the first, and so the only one, stands last.
percent_form :
    (v : Bytes) (k : ℕ)
    → count_digits is_percent v ≡ some k
    → has_tail (strchr v b'%') ≡ false
    → is_found (strchr v b'%') ≡ true
    → (ds : Bytes) × (v ≡ percent ds) × IsDigits ds × (length ds ≡ k)
unfolding strchr
percent_form [] k n t f = cc
percent_form (c ∷ v) k n t f =
    let (j, e, either) = count_cons is_percent c v k n in
    elim (Bool-cases (c == b'%')) [
      | inl sign ↦
          let end : v ≡ [] = count_nul v j e (ground arith) in
          let zero_digits : k ≡ 0 = unfold count_digits isdigit in ground arith in
          ([], ground arith, tt, omega (arith, zero_digits))
      | inr other ↦
          let digit : isdigit c ≡ true = ground arith in
          let (ds, form, digits, size) = percent_form v j e (ground arith) (ground arith) in
          (c ∷ ds, ap (λ t. c ∷ t) form, (digit, digits), ground arith)
    ]

percentage_form :
    (v : Bytes) (n : ℕ)
    → percentage v ≡ some n
    → (ds : Bytes) × (v ≡ percent ds) × IsDigits ds × (ds ≢ [])
unfolding percentage
percentage_form v n h = elim (Option-cases (count_digits is_percent v)) [
  | inl e ↦ cc
  | inr (k, e) ↦
      let t : has_tail (strchr v b'%') ≡ false = ground arith in
      let f : is_found (strchr v b'%') ≡ true = ground arith in
      let some_digit : k ≢ 0 = ground arith in
      let (ds, form, digits, size) = percent_form v k e t f in
      (ds, form, digits, λ nil. some_digit (ground arith))
]

-- A percentage that is taken is one or more digits and a percent sign, and its number is the
-- value of the digits modulo 2 ^ 64, read as a signed number of at most 100.
percentage_sound :
    (v : Bytes) (n : ℕ)
    → percentage v ≡ some n
    → (ds : Bytes) × (v ≡ percent ds)
      × IsDigits ds
      × (ds ≢ [])
      × (n ≡ value ds % word_64)
      × (exceeds n 100 ≡ false)
percentage_sound v n h =
    let (ds, form, digits, ne) = percentage_form v n h in
    let read : percentage (percent ds) ≡ some n = rw (← form) h in
    let judged = percentage_digits ds digits ne in
    (ds, form, digits, ne, ground arith, ground arith)

-- A position that is taken is one or more digits and a percent sign; the cue then has their value
-- modulo 2 ^ 64 and then 2 ^ 32, whether it had a position before or not. Any other value is refused
-- and leaves the cue as it was.
pub set_position_sound :
    (cue : Cue) (v : Bytes)
    → (set_position cue v ≡ (bad_position, cue))
      ⊎ ((ds : Bytes) × (v ≡ percent ds)
          × IsDigits ds
          × (ds ≢ [])
          × (exceeds (value ds % word_64) 100 ≡ false)
          × ((set_position cue v).0
              ≡ (if cue.flags.have_position then already_position else success))
          × ((set_position cue v).1 ≡ record cue {
            settings = record (cue.settings) { position = to_32 (value ds % word_64) };
            flags = record (cue.flags) { have_position = true };
          }))
unfolding set_position
set_position_sound cue v = elim (Option-cases (percentage v)) [
  | inl e ↦ inl (rw (e, set_position))
  | inr (n, e) ↦
      let (ds, form, digits, ne, number, small) = percentage_sound v n e in
      inr (ds, form, digits, ne, rw (← number) small, ground arith, ground arith)
]

-- A size that is taken is one or more digits and a percent sign; the cue then has their value modulo
-- 2 ^ 64 and then 2 ^ 32, whether it had a size before or not. Any other value is refused and leaves
-- the cue as it was.
pub set_size_sound :
    (cue : Cue) (v : Bytes)
    → (set_size cue v ≡ (bad_size, cue))
      ⊎ ((ds : Bytes) × (v ≡ percent ds)
          × IsDigits ds
          × (ds ≢ [])
          × (exceeds (value ds % word_64) 100 ≡ false)
          × ((set_size cue v).0 ≡ (if cue.flags.have_size then already_size else success))
          × ((set_size cue v).1 ≡ record cue {
            settings = record (cue.settings) { size = to_32 (value ds % word_64) };
            flags = record (cue.flags) { have_size = true };
          }))
unfolding set_size
set_size_sound cue v = elim (Option-cases (percentage v)) [
  | inl e ↦ inl (rw (e, set_size))
  | inr (n, e) ↦
      let (ds, form, digits, ne, number, small) = percentage_sound v n e in
      inr (ds, form, digits, ne, rw (← number) small, ground arith, ground arith)
]

-- One or more digits with a percent sign behind them, of a value below 2 ^ 63, are refused as a
-- position if the value is above 100. Otherwise they are taken, with success for the first position
-- of a cue and a status of its own for a further one.
pub set_position_complete :
    (cue : Cue) (ds : Bytes)
    → IsDigits ds
    → ds ≢ []
    → value ds < 2 ^ 63
    → (set_position cue (percent ds)).0 ≡ (
        if ltb 100 (value ds)
        then bad_position
        else if cue.flags.have_position
        then already_position
        else success)
unfolding set_position
set_position_complete cue ds h ne small = ground (arith, percentage_digits ds h ne)

-- One or more digits whose value modulo 2 ^ 64 is at most 100, or at least 2 ^ 63, with a percent
-- sign behind them, are not refused as a position, however large the value itself is.
pub set_position_wraps :
    (cue : Cue) (ds : Bytes)
    → IsDigits ds
    → ds ≢ []
    → (value ds % word_64 ≤ 100) ⊎ (2 ^ 63 ≤ value ds % word_64)
    → (set_position cue (percent ds)).0 ≢ bad_position
unfolding set_position
set_position_wraps cue ds h ne wraps = ground (arith, percentage_digits ds h ne)
