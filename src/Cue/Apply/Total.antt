-- ===== src/Cue/Apply/Total.antt =====
-- The walk over a settings line (src/libwebvtt/cue.c) ends, and what it leaves alone.
use webvtt.Base.{
  ℕ, zero, suc, ◌+◌, ◌≤◌, ◌<◌, ◌≡◌, refl, inl, inr, Bool, Bool-cases, false, Option, none, some, [],
  ◌∷◌, Bytes, ltb, arith, length, peek, ◌==◌,
}
use webvtt.Cue.{Cue}
use webvtt.Cue.Apply.{
  Walk, round, apply_words, line_length, index_of, has_parser, validate_set_settings,
}
use webvtt.Cue.Setters.Frame.{Keeps, Keeps-refl, Keeps-trans, set_setting_from_string-Explained}
use webvtt.Text.{isspace, collect_word, skip_whitespace}

skip_length : (s : Bytes) → (skip_whitespace s).0 + length (skip_whitespace s).1 ≡ length s
unfolding skip_whitespace
skip_length [] = omega arith
skip_length (c ∷ s) = ground (arith, skip_length s)

-- No white space is left in front.
skip_stops : (s : Bytes) → isspace (peek (skip_whitespace s).1) ≡ false
unfolding skip_whitespace isspace
skip_stops [] = refl
skip_stops (c ∷ s) = ground (arith, skip_stops s)

collect_length : (s : Bytes) → length (collect_word s).0 + length (collect_word s).1 ≡ length s
unfolding collect_word
collect_length [] = omega arith
collect_length (c ∷ s) = ground (arith, collect_length s)

collect_pos : (s : Bytes) → isspace (peek s) ≡ false → 0 < length s → 0 < length (collect_word s).0
unfolding collect_word
collect_pos [] h p = absurd (omega arith)
collect_pos (c ∷ s) h p = ground arith

-- Where the walk stands in a text of `total` bytes.
record At (total : ℕ) (w : Walk) : Type 0 where
  place : w.position + length w.rest ≡ total
  at_word : isspace (peek w.rest) ≡ false

round-At :
    {total : ℕ} (self : Bool) (line : ℕ) (w : Walk)
    → At total w
    → w.position < total
    → At total (round self line w) × (w.position < (round self line w).position)
unfolding round
round-At self line w a p =
    let word = collect_word w.rest in
    let lengths = skip_length word.1 in
    let parts = collect_length w.rest in
    let moved = collect_pos w.rest a.at_word (omega (arith, a.place)) in
    (
      record { place = omega (arith, a.place, lengths, parts); at_word = skip_stops word.1 },
      omega (arith, moved),
    )

abbrev Within : ℕ → Option ℕ → Type 0
Within n none = Unit
Within n (some i) = i ≤ n

index_of-Within : (c : ℕ) (s : Bytes) → Within (length s) (index_of c s)
unfolding index_of
index_of-Within c [] = tt
index_of-Within c (d ∷ s) = elim (Bool-cases (d == c)) [
  | inl found ↦ rw found (omega arith)
  | inr other ↦ rw other (later (index_of c s) (index_of-Within c s))
]
  where
    later :
        (o : Option ℕ)
        → Within (length s) o
        → Within (suc (length s)) (elim o [ none ↦ none | some i ↦ some (i + 1) ])
    later none h = tt
    later (some i) h = omega arith

line_length-le : (s : Bytes) → line_length s ≤ length s
unfolding line_length
line_length-le s =
    choose (index_of b'\r' s) (index_of b'\n' s) (index_of-Within b'\r' s) (index_of-Within b'\n' s)
  where
    choose :
        (o p : Option ℕ)
        → Within (length s) o
        → Within (length s) p
        → (elim o [ some i ↦ i | none ↦ elim p [ some i ↦ i | none ↦ length s ] ]) ≤ length s
    choose (some i) p h k = h
    choose none (some i) h k = k
    choose none none h k = omega arith

round-Keeps : (self : Bool) (line : ℕ) (w : Walk) → Keeps w.cue (round self line w).cue
unfolding round
round-Keeps self line w = (set_setting_from_string-Explained w.cue (collect_word w.rest).0).keeps

loop_total :
    (fuel total limit : ℕ) (self : Bool) (line : ℕ) (w : Walk)
    → At total w
    → limit ≤ total
    → total < w.position + fuel
    → (w' : Walk) × (apply_words fuel self line limit w ≡ some w')
      × (limit ≤ w'.position)
      × Keeps w.cue w'.cue
unfolding apply_words
loop_total zero total limit self line w a l f = absurd (omega (arith, a.place))
loop_total (suc fuel) total limit self line w a l f = elim (Bool-cases (ltb w.position limit)) [
  | inr done ↦ (w, rw done, ground arith, Keeps-refl w.cue)
  | inl more ↦
      let (a', moved) = round-At self line w a (ground arith) in
      let (w', e, past, k) =
        loop_total fuel total limit self line (round self line w) a' l (omega (arith, moved)) in
      (w', rw more e, past, Keeps-trans (round-Keeps self line w) k)
]

-- The walk over a settings line ends within the fuel that it is given, behind the line, and leaves
-- the times, the texts and the header flags of the cue as they were.
pub validate_set_settings_total :
    (self : Option (ℕ × ℕ)) (cue : Cue) (settings : Bytes)
    → (w : Walk) × (validate_set_settings self cue settings ≡ some w)
      × (line_length settings ≤ w.position)
      × Keeps cue w.cue
unfolding validate_set_settings
validate_set_settings_total self cue settings =
    loop_total (length settings + 1) (length settings) (line_length settings) (has_parser self) _ _
      (record { place = skip_length settings; at_word = skip_stops settings })
      (line_length-le settings) (omega (arith, skip_length settings))
