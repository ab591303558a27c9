-- ===== src/CueText/Tokenizer/Escape.antt =====
-- Text that is escaped comes through the tokenizer of src/libwebvtt/cuetext.c as it was.
use webvtt.Base.{
  ℕ, zero, suc, ◌+◌, ◌≤◌, ◌<◌, ◌≡◌, ◌≢◌, refl, ◌∙◌, false, Bool-cases, ◌⊎◌, inl, inr, some, [], ◌∷◌,
  ◌++◌, Bytes, arith, length, length-append, append_assoc, append-nil, if◌then◌else◌, codes, ◌==◌,
  ◌||◌,
}
use webvtt.Status.{success, unfinished}
use webvtt.CueText.Tokenizer.{in_data, text_token, data_state, Scan, scan_loop, tokenizer}

-- An author's escape of the two bytes that begin markup.
abbrev pub escape_byte : ℕ → Bytes
escape_byte c = if c == b'&' then codes "&amp;" else if c == b'<' then codes "&lt;" else c ∷ []

abbrev pub escape_text : Bytes → Bytes
escape_text [] = []
escape_text (c ∷ s) = escape_byte c ++ escape_text s

abbrev reading : Bytes → Bytes → Scan
reading position result = record {
  status = unfinished;
  state = in_data;
  position = position;
  result = result;
  annotation = [];
  css_classes = [];
}

-- The text ends, or a tag begins.
abbrev pub IsBoundary : Bytes → Type 0
IsBoundary rest = (rest ≡ []) ⊎ ((q : Bytes) × (rest ≡ b'<' ∷ q))

read_plain :
    (fuel c : ℕ) (p r : Bytes)
    → (c == b'&') ≡ false
    → (c == b'<') ≡ false
    → scan_loop (suc fuel) (reading (c ∷ p) r) ≡ scan_loop (suc fuel) (reading p (r ++ c ∷ []))
unfolding scan_loop
read_plain fuel c p r a b = rw (a, b, data_state) refl

read_escape :
    (fuel c : ℕ) (p r : Bytes)
    → (c ≡ b'&') ⊎ (c ≡ b'<')
    → scan_loop (suc (suc fuel)) (reading (escape_byte c ++ p) r)
      ≡ scan_loop fuel (reading p (r ++ c ∷ []))
unfolding scan_loop
read_escape fuel c p r (inl e) = rw e refl
read_escape fuel c p r (inr e) = rw e refl

read_end :
    (fuel : ℕ) (rest r : Bytes)
    → IsBoundary rest
    → 0 < length r
    → scan_loop (suc (suc fuel)) (reading rest r)
      ≡ some (record (reading rest r) { status = success })
unfolding scan_loop
read_end fuel rest r (inl e) p = rw e refl
read_end fuel rest r (inr (q, e)) p = rw e (ground arith)

escape_byte_room :
    (c : ℕ) (t : Bytes)
    → length t + (if c == b'&' || c == b'<' then 4 else 1) ≤ length (escape_byte c ++ t)
escape_byte_room c t = ground arith

read_text :
    (s r rest : Bytes) (fuel : ℕ)
    → IsBoundary rest
    → 0 < length r + length s
    → length (escape_text s) + 2 ≤ fuel
    → scan_loop fuel (reading (escape_text s ++ rest) r)
      ≡ some (record (reading rest (r ++ s)) { status = success })
read_text s r rest zero b p f = absurd (omega arith)
read_text s r rest (suc zero) b p f = absurd (omega arith)
read_text [] r rest (suc (suc fuel)) b p f = read_end fuel rest r b (omega arith) ∙ rw append-nil
read_text (c ∷ s) r rest (suc (suc fuel)) b p f = elim (Bool-cases (c == b'&' || c == b'<')) [
  | inl marked ↦ rw append_assoc (
      read_escape fuel c (escape_text s ++ rest) r (ground arith)
      ∙ read_text s (r ++ c ∷ []) rest fuel b (omega (arith, length-append r (c ∷ [])))
          (ground (arith, escape_byte_room c (escape_text s)))
      ∙ rw append_assoc)
  | inr plain ↦
      let amp : (c == b'&') ≡ false = ground arith in
      let lt : (c == b'<') ≡ false = ground arith in
      rw (amp, lt)
        (read_plain (suc fuel) c (escape_text s ++ rest) r amp lt
          ∙ read_text s (r ++ c ∷ []) rest (suc (suc fuel)) b
              (omega (arith, length-append r (c ∷ [])))
              (ground (arith, escape_byte_room c (escape_text s)))
          ∙ rw append_assoc)
]

-- A text that is not empty, with `&` and `<` escaped, is read as one text token with the text itself,
-- if it is followed by the end of the payload or by a tag, which is left.
pub tokenizer-escape_text :
    (s rest : Bytes)
    → s ≢ []
    → IsBoundary rest
    → tokenizer (escape_text s ++ rest) ≡ some (text_token s, rest)
unfolding tokenizer
tokenizer-escape_text [] rest ne b = absurd (ne refl)
tokenizer-escape_text (c ∷ s) rest ne b =
    let read =
      read_text (c ∷ s) [] rest (length (escape_text (c ∷ s) ++ rest) + 2) b (omega arith)
        (omega (arith, length-append (escape_text (c ∷ s)) rest)) in
    rw (read, tokenizer) (elim b [ inl e ↦ rw e refl | inr (q, e) ↦ rw e refl ])
