-- ===== src/StringData/Lines.antt =====
-- `webvtt_string_getline` (src/libwebvtt/string.c) loses nothing of a line.
use webvtt.Base.{
  ℕ, ◌+◌, ◌^◌, ◌≤◌, ◌<◌, ◌≡◌, ◌≢◌, refl, sym, ◌∙◌, ap, ◌⊎◌, inl, inr, Bool, Bool-cases, true, false,
  not, ◌||◌, Option, none, some, [], ◌∷◌, ◌++◌, arith, Bytes, All, ltb, leb, ◌==◌, length,
  length-append, append-nil,
}
use webvtt.StringData.{StringData, grow, split_line, Line, too_long, one_more, copy_in, getline}
use webvtt.StringData.Bounds.{IsSound, Grown, grow-Grown}

abbrev pub IsEnd : ℕ → Type 0
IsEnd c = (c ≡ b'\r') ⊎ (c ≡ b'\n')

-- A line is over: the buffer ends, or the bytes of its end follow.
abbrev pub AtEnd : Bytes → Type 0
AtEnd rest = (rest ≡ []) ⊎ ((c : ℕ) × (s : Bytes) × (rest ≡ c ∷ s) × IsEnd c)

abbrev pub IsInner : ℕ → Type 0
IsInner c = (c ≢ b'\r') × (c ≢ b'\n')

pub split_line_lem :
    (s : Bytes)
    → (s ≡ (split_line s).0 ++ (split_line s).1)
      × All IsInner (split_line s).0
      × AtEnd (split_line s).1
unfolding split_line
split_line_lem [] = (refl, tt, inl refl)
split_line_lem (c ∷ s) = elim (Bool-cases (c == b'\r' || c == b'\n')) [
  | inl e ↦ rw e (refl, tt, inr (c, s, refl, ground arith))
  | inr e ↦
      let (parts, inner, end) = split_line_lem s in
      rw e (ap (λ t. c ∷ t) parts, ((ground arith, ground arith), inner), end)
]

outcome : Bytes × Bool → Option Line → Bytes × Bool
outcome d none = d
outcome d (some l) = (l.rest, l.ended)

copy_in-outcome :
    (line rest : Bytes) (ended : Bool) (truncate : Option ℕ) (o : Option StringData)
    → outcome (rest, ended) (copy_in line rest ended truncate o) ≡ (rest, ended)
unfolding outcome
copy_in-outcome line rest ended truncate none = refl
copy_in-outcome line rest ended truncate (some str) = refl

-- Where a line was read, with a string of any size, the rest of the buffer begins with its end, and the
-- line is over if there is a rest or the input is finished.
pub getline_rest :
    (header : ℕ) (str : StringData) (s : Bytes) (truncate : Option ℕ) (finish : Bool) (l : Line)
    → getline header str s truncate finish ≡ some l
    → (l.rest ≡ (split_line s).1) × (l.ended ≡ (not (length (split_line s).1 == 0) || finish))
unfolding getline outcome
getline_rest header str s truncate finish l e =
    let (line, rest) = split_line s in
    let ended = not (length rest == 0) || finish in
    let d : Bytes × Bool = (rest, ended) in
    let same : outcome d (getline header str s truncate finish) ≡ d =
      elim (Bool-cases (leb str.alloc (length str.text + length (split_line s).0 + 1))) [
        | inl full ↦ elim (Bool-cases (too_long truncate str)) [
          | inl cut ↦
              rw (full, cut) (copy_in-outcome line rest ended (one_more truncate) (some str))
          | inr whole ↦
              rw (full, whole)
                (copy_in-outcome line rest ended truncate (grow header str (length line + 1)))
        ]
        | inr room ↦ rw room (copy_in-outcome line rest ended truncate (some str))
      ] in
    let found = ap (λ o. outcome d o) (sym e) ∙ same in (ap (λ x. x.0) found, ap (λ x. x.1) found)

-- The result of reading the line from `str`.
record Reads (str : StringData) (line behind : Bytes) (cut : Option ℕ) (over : Bool) (r : Line)
    : Type 0 where
  text : r.str.text ≡ str.text ++ line
  sound : IsSound r.str
  rest : r.rest ≡ behind
  truncate : r.truncate ≡ cut
  ended : r.ended ≡ over

copy_in-Reads :
    (str : StringData) (line rest : Bytes) (ended : Bool) (truncate : Option ℕ)
    (o : Option StringData)
    → IsSound str
    → Grown str (length line + 1) o
    → (r : Line) × (copy_in line rest ended truncate o ≡ some r)
      × Reads str line rest truncate ended r
copy_in-Reads str line rest ended truncate none sound h = absurd h
copy_in-Reads str [] rest ended truncate (some q) sound (t, room, nul, own) = (
  _,
  refl,
  record {
    text = t ∙ rw append-nil refl;
    sound = record { fits = rw t (omega arith); terminated = ground (arith, sound.terminated) };
    rest = refl;
    truncate = refl;
    ended = refl;
  },
)
copy_in-Reads str (c ∷ line) rest ended truncate (some q) sound (t, room, nul, own) =
    let fits : ltb (length q.text + length (c ∷ line)) q.alloc ≡ true = rw t (ground arith) in
    let some_bytes : (length (c ∷ line) == 0) ≡ false = ground arith in
    let copied = record q { text = q.text ++ c ∷ line; terminated = true } in
    (
      record { ended = ended; str = copied; truncate = truncate; rest = rest },
      rw (fits, some_bytes) refl,
      record {
        text = rw t refl;
        sound = record {
          fits = omega (arith, length-append q.text (c ∷ line), ap (λ s. length s) t);
          terminated = refl;
        };
        rest = refl;
        truncate = refl;
        ended = refl;
      },
    )

module _ (header : ℕ) (p : 0 < header) where
  getline-Reads :
      (str : StringData) (s : Bytes) (truncate : Option ℕ) (finish : Bool)
      → IsSound str
      → too_long truncate str ≡ false
      → header + (length str.text + (length (split_line s).0 + 1)) ≤ 2 ^ 31
      → (r : Line) × (getline header str s truncate finish ≡ some r)
        × Reads str
            (split_line s).0
            (split_line s).1
            truncate
            (not (length (split_line s).1 == 0) || finish)
            r
  unfolding getline
  getline-Reads str s truncate finish sound whole h =
      let line = (split_line s).0 in
      elim (Bool-cases (leb str.alloc (length str.text + length line + 1))) [
        | inl full ↦
            rw (full, whole)
              (copy_in-Reads str line _ _ truncate _ sound
                (grow-Grown header p str (length line + 1) h))
        | inr room ↦ rw room (
            copy_in-Reads str line _ _ truncate (some str) sound
              (refl, ground arith, ground (arith, sound.terminated), ground arith))
      ]

  -- Let the size of the header, which is not 0, the lengths of a sound string and of the buffer, and 1
  -- be at most 2 ^ 31 together, and let the string not be cut (`truncate` is not given, or the block is below
  -- WEBVTT_MAX_LINE). Then the bytes up to the first carriage return or line feed, or up to the end of
  -- the buffer, all come behind the text of the string, which stays sound; the buffer goes on behind
  -- them. The line is over if there is a byte left or the input is finished.
  pub getline_keeps :
      (str : StringData) (s : Bytes) (truncate : Option ℕ) (finish : Bool)
      → IsSound str
      → too_long truncate str ≡ false
      → header + (length str.text + (length s + 1)) ≤ 2 ^ 31
      → (r : Line) × (line : Bytes) × (getline header str s truncate finish ≡ some r)
        × (s ≡ line ++ r.rest)
        × All IsInner line
        × AtEnd r.rest
        × (r.str.text ≡ str.text ++ line)
        × IsSound r.str
        × (r.truncate ≡ truncate)
        × (r.ended ≡ (not (length r.rest == 0) || finish))
  getline_keeps str s truncate finish sound whole h =
      let (parts, inner, end) = split_line_lem s in
      let line = (split_line s).0 in
      let sizes : length s ≡ length line + length (split_line s).1 =
        ap (λ t. length t) parts ∙ length-append line (split_line s).1 in
      let (r, e, reads) = getline-Reads str s truncate finish sound whole (omega (arith, sizes)) in
      (
        r,
        line,
        e,
        parts ∙ ap (λ t. line ++ t) (sym reads.rest),
        inner,
        rw (reads.rest) end,
        reads.text,
        reads.sound,
        reads.truncate,
        reads.ended ∙ rw (reads.rest) refl,
      )

  copy_in-IsSound :
      (line rest : Bytes) (ended : Bool) (truncate : Option ℕ) (str : StringData)
      → IsSound str
      → (r : Line) × (copy_in line rest ended truncate (some str) ≡ some r)
        × IsSound r.str
        × ((r.str.text ≡ str.text ++ line)
            ⊎ ((r.str.text ≡ str.text) × (str.alloc ≤ length str.text + length line)))
  copy_in-IsSound [] rest ended truncate str sound = (_, refl, sound, inl (rw append-nil refl))
  copy_in-IsSound (c ∷ line) rest ended truncate str sound =
      let some_bytes : (length (c ∷ line) == 0) ≡ false = ground arith in
      elim (Bool-cases (ltb (length str.text + length (c ∷ line)) str.alloc)) [
        | inl fits ↦ (
          record {
            ended = ended;
            str = record str { text = str.text ++ c ∷ line; terminated = true };
            truncate = truncate;
            rest = rest;
          },
          rw (some_bytes, fits) refl,
          record {
            fits = ground (arith, fits, length-append str.text (c ∷ line));
            terminated = refl;
          },
          inl refl,
        )
        | inr full ↦ (
          record { ended = ended; str = str; truncate = truncate; rest = rest },
          rw (some_bytes, full) refl,
          sound,
          inr (refl, ground arith),
        )
      ]

  -- Where there is room for the line it is copied.
  copy_in_room :
      (line rest : Bytes) (ended : Bool) (truncate : Option ℕ) (str q : StringData)
      → IsSound q
      → q.text ≡ str.text
      → length str.text + length line < q.alloc
      → (r : Line) × (copy_in line rest ended truncate (some q) ≡ some r)
        × IsSound r.str
        × (r.str.text ≡ str.text ++ line)
  copy_in_room line rest ended truncate str q sound t room =
      let (r, e, sound', either) = copy_in-IsSound line rest ended truncate q sound in
      let size : length q.text ≡ length str.text = ap (λ s. length s) t in
      elim either [
        | inl whole ↦ (r, e, sound', whole ∙ ap (λ s. s ++ line) t)
        | inr (same, full) ↦ absurd (omega (arith, full, size, room))
      ]

  copy_in-Grown :
      (str : StringData) (line rest : Bytes) (ended : Bool) (truncate : Option ℕ)
      (o : Option StringData)
      → IsSound str
      → Grown str (length line + 1) o
      → (r : Line) × (copy_in line rest ended truncate o ≡ some r)
        × IsSound r.str
        × (r.str.text ≡ str.text ++ line)
  copy_in-Grown str line rest ended truncate none sound h = absurd h
  copy_in-Grown str line rest ended truncate (some q) sound (t, room, nul_there, own) =
      copy_in_room line rest ended truncate str q
        (record { fits = rw t (omega arith); terminated = ground (arith, sound.terminated) }) t
        (omega arith)

  -- With a line that is cut or not, the string stays sound; a line that is not cut is behind its text.
  pub getline-IsSound :
      (str : StringData) (s : Bytes) (truncate : Option ℕ) (finish : Bool)
      → IsSound str
      → header + (length str.text + (length s + 1)) ≤ 2 ^ 31
      → (r : Line) × (getline header str s truncate finish ≡ some r)
        × IsSound r.str
        × ((r.str.text ≡ str.text ++ (split_line s).0)
            ⊎ ((r.str.text ≡ str.text) × (too_long truncate str ≡ true)))
  unfolding getline
  getline-IsSound str s truncate finish sound h =
      let (line, rest) = split_line s in
      let (parts, inner, end) = split_line_lem s in
      let sizes : length s ≡ length (split_line s).0 + length (split_line s).1 =
        ap (λ t. length t) parts ∙ length-append (split_line s).0 (split_line s).1 in
      let ended = not (length rest == 0) || finish in
      elim (Bool-cases (leb str.alloc (length str.text + length (split_line s).0 + 1))) [
        | inl full ↦ elim (Bool-cases (too_long truncate str)) [
          | inl cut ↦
              let (r, e, sound', either) =
                copy_in-IsSound line rest ended (one_more truncate) str sound in
              rw (full, cut)
                (
                  r,
                  e,
                  sound',
                  (elim either [ inl whole ↦ inl whole | inr (same, much) ↦ inr (same, refl) ]),
                )
          | inr whole ↦
              let (r, e, sound', text) =
                copy_in-Grown str line rest ended truncate _ sound
                  (grow-Grown header p str (length line + 1) (omega (arith, sizes))) in
              rw (full, whole) (r, e, sound', inl text)
        ]
        | inr room ↦
            let (r, e, sound', text) =
              copy_in_room line rest ended truncate str str sound refl (ground (arith, room)) in
            rw room (r, e, sound', inl text)
      ]
