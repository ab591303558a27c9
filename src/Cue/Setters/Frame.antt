-- ===== src/Cue/Setters/Frame.antt =====
-- What the setters of src/libwebvtt/cue.c leave as it was.
use webvtt.Base.{
  Bool, true, false, ◌≡◌, refl, ◌∙◌, arith, Bytes, Option, none, some, if◌then◌else◌, length, peek,
  ltb, ◌==◌, ◌||◌, ◌⊎◌, inl, inr, ℕ,
}
use webvtt.Cue.{Cue, AlignType, VerticalType}
use webvtt.Cue.Setters.{
  assign_align, align_from, set_align, assign_vertical, vertical_from, set_vertical,
  assign_position, set_position, assign_size, set_size, assign_line, set_line, set_setting, Outcome,
  set_setting_from_string, percentage, line_from, split_colon,
}
use webvtt.Status.{
  Status, success, Error, error_for_status, align_bad_value, align_already_set, line_bad_value,
  line_already_set, position_bad_value, position_already_set, size_bad_value, size_already_set,
  vertical_bad_value, vertical_already_set, invalid_cuesetting, bad_cuesetting, bad_align, bad_line,
  bad_position, bad_size, bad_vertical, already_align, already_line, already_position, already_size,
  already_vertical,
}

-- The times, the texts and the header flags are those of `a`, and no setting's flag is lost.
pub record Keeps (a b : Cue) : Type 0 where
  pub from : b.from ≡ a.from
  pub until : b.until ≡ a.until
  pub id : b.id ≡ a.id
  pub body : b.body ≡ a.body
  pub have_id : b.flags.have_id ≡ a.flags.have_id
  pub have_cueparams : b.flags.have_cueparams ≡ a.flags.have_cueparams
  pub have_align : (a.flags.have_align || b.flags.have_align) ≡ b.flags.have_align
  pub have_line : (a.flags.have_line || b.flags.have_line) ≡ b.flags.have_line
  pub have_position : (a.flags.have_position || b.flags.have_position) ≡ b.flags.have_position
  pub have_size : (a.flags.have_size || b.flags.have_size) ≡ b.flags.have_size
  pub have_vertical : (a.flags.have_vertical || b.flags.have_vertical) ≡ b.flags.have_vertical

or_trans : (a b c : Bool) → (a || b) ≡ b → (b || c) ≡ c → (a || c) ≡ c
or_trans a b c h k = ground arith

pub Keeps-refl : (a : Cue) → Keeps a a
Keeps-refl a = ground arith

pub Keeps-trans : {a b c : Cue} → Keeps a b → Keeps b c → Keeps a c
Keeps-trans h k = record {
  from = k.from ∙ h.from;
  until = k.until ∙ h.until;
  id = k.id ∙ h.id;
  body = k.body ∙ h.body;
  have_id = k.have_id ∙ h.have_id;
  have_cueparams = k.have_cueparams ∙ h.have_cueparams;
  have_align = or_trans _ _ _ h.have_align k.have_align;
  have_line = or_trans _ _ _ h.have_line k.have_line;
  have_position = or_trans _ _ _ h.have_position k.have_position;
  have_size = or_trans _ _ _ h.have_size k.have_size;
  have_vertical = or_trans _ _ _ h.have_vertical k.have_vertical;
}

assign_align-Keeps : (c : Cue) (i : AlignType) → Keeps c (assign_align c i).1
unfolding assign_align
assign_align-Keeps c i = ground arith

assign_vertical-Keeps : (c : Cue) (i : VerticalType) → Keeps c (assign_vertical c i).1
unfolding assign_vertical
assign_vertical-Keeps c i = ground arith

assign_position-Keeps : (c : Cue) (n : ℕ) → Keeps c (assign_position c n).1
unfolding assign_position
assign_position-Keeps c n = ground arith

assign_size-Keeps : (c : Cue) (n : ℕ) → Keeps c (assign_size c n).1
unfolding assign_size
assign_size-Keeps c n = ground arith

assign_line-Keeps : (c : Cue) (l : ℕ × Bool) → Keeps c (assign_line c l).1
unfolding assign_line
assign_line-Keeps c (n, p) = ground arith

-- The statuses of a setting that is refused.
abbrev pub is_bad : Status → Bool
is_bad bad_align = true
is_bad bad_line = true
is_bad bad_position = true
is_bad bad_size = true
is_bad bad_vertical = true
is_bad bad_cuesetting = true
is_bad _ = false

-- A failure has an error to report, and a refused setting gives back the very cue.
pub record Explained (c : Cue) (o : Outcome) : Type 0 where
  pub keeps : Keeps c o.1
  pub reported : (o.0 ≡ success) ⊎ ((e : Error) × (error_for_status o.0 ≡ some e))
  pub refused : (is_bad o.0 ≡ false) ⊎ (o.1 ≡ c)

bad-Explained :
    (c : Cue) (s : Status) (e : Error) → error_for_status s ≡ some e → Explained c (s, c)
bad-Explained c s e h = record { keeps = Keeps-refl c; reported = inr (e, h); refused = inr refl }

assigned-Explained :
    {c : Cue} (o : Outcome) (s : Status) (e : Error)
    → error_for_status s ≡ some e
    → is_bad s ≡ false
    → (o.0 ≡ success) ⊎ (o.0 ≡ s)
    → Keeps c o.1
    → Explained c o
assigned-Explained o s e h good either k = record {
  keeps = k;
  reported = elim either [ inl p ↦ inl p | inr p ↦ inr (e, rw p h) ];
  refused = inl (elim either [ inl p ↦ rw p refl | inr p ↦ rw p good ]);
}

module _ {A : Type 0} (c : Cue) (s s' : Status) (f : A → Outcome) where
  chosen : Option A → Outcome
  chosen o = elim o [ none ↦ (s, c) | some a ↦ f a ]

  -- The shape of a setter: a value is refused with the status `s`, or assigned.
  chosen-Explained :
      (e e' : Error)
      → error_for_status s ≡ some e
      → error_for_status s' ≡ some e'
      → is_bad s' ≡ false
      → ((a : A) → ((f a).0 ≡ success) ⊎ ((f a).0 ≡ s'))
      → ((a : A) → Keeps c (f a).1)
      → (o : Option A) → Explained c (chosen o)
  unfolding chosen
  chosen-Explained e e' h h' good either k none = bad-Explained c s e h
  chosen-Explained e e' h h' good either k (some a) =
      assigned-Explained (f a) s' e' h' good (either a) (k a)

set_align-Explained : (c : Cue) (value : Bytes) → Explained c (set_align c value)
unfolding set_align chosen error_for_status
set_align-Explained c value =
    chosen-Explained c bad_align already_align (assign_align c) align_bad_value align_already_set
      refl refl refl (λ i. ground arith) (assign_align-Keeps c) (align_from value)

set_vertical-Explained : (c : Cue) (value : Bytes) → Explained c (set_vertical c value)
unfolding set_vertical chosen error_for_status
set_vertical-Explained c value =
    chosen-Explained c bad_vertical already_vertical (assign_vertical c) vertical_bad_value
      vertical_already_set refl refl refl (λ i. ground arith) (assign_vertical-Keeps c)
      (vertical_from value)

set_position-Explained : (c : Cue) (value : Bytes) → Explained c (set_position c value)
unfolding set_position chosen error_for_status
set_position-Explained c value =
    chosen-Explained c bad_position already_position (assign_position c) position_bad_value
      position_already_set refl refl refl (λ i. ground arith) (assign_position-Keeps c)
      (percentage value)

set_size-Explained : (c : Cue) (value : Bytes) → Explained c (set_size c value)
unfolding set_size chosen error_for_status
set_size-Explained c value =
    chosen-Explained c bad_size already_size (assign_size c) size_bad_value size_already_set refl
      refl refl (λ i. ground arith) (assign_size-Keeps c) (percentage value)

assign_line-either :
    (c : Cue) (l : ℕ × Bool)
    → ((assign_line c l).0 ≡ success) ⊎ ((assign_line c l).0 ≡ already_line)
unfolding assign_line
assign_line-either c (n, p) = ground arith

set_line-Explained : (c : Cue) (value : Bytes) → Explained c (set_line c value)
unfolding set_line chosen error_for_status
set_line-Explained c value =
    chosen-Explained c bad_line already_line (assign_line c) line_bad_value line_already_set refl
      refl refl (assign_line-either c) (assign_line-Keeps c) (line_from value)

bad_cuesetting-Explained : (c : Cue) → Explained c (bad_cuesetting, c)
unfolding error_for_status
bad_cuesetting-Explained c = bad-Explained c bad_cuesetting invalid_cuesetting refl

if-Explained :
    (c : Cue) (b : Bool) (x y : Outcome)
    → Explained c x
    → Explained c y
    → Explained c (if b then x else y)
if-Explained c true x y h k = h
if-Explained c false x y h k = k

pub set_setting-Explained : (c : Cue) (key value : Bytes) → Explained c (set_setting c key value)
unfolding set_setting
set_setting-Explained c key value = if-Explained c _ _ _ (set_align-Explained c value) (
    if-Explained c _ _ _ (set_line-Explained c value) (
      if-Explained c _ _ _ (set_position-Explained c value) (
        if-Explained c _ _ _ (set_size-Explained c value)
          (if-Explained c _ _ _ (set_vertical-Explained c value) (bad_cuesetting-Explained c)))))

-- Whatever the word is, the times, texts and header flags of the cue stay, no setting's flag is
-- lost, a failure has an error code, and a refused setting changes nothing.
pub set_setting_from_string-Explained :
    (c : Cue) (word : Bytes) → Explained c (set_setting_from_string c word)
unfolding set_setting_from_string
set_setting_from_string-Explained c word = from_split (split_colon word)
  where
    from_split :
        (o : Option (Bytes × Bytes))
        → Explained c (elim o [
          | none ↦ (bad_cuesetting, c)
          | some (keyword, value) ↦
              if length keyword == 0 || peek value == 0 || ltb 31 (length keyword)
              then (bad_cuesetting, c)
              else set_setting c keyword value
        ])
    from_split none = bad_cuesetting-Explained c
    from_split (some (keyword, value)) =
        if-Explained c _ _ _ (bad_cuesetting-Explained c) (set_setting-Explained c keyword value)
