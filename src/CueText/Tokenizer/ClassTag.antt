-- ===== src/CueText/Tokenizer/ClassTag.antt =====
-- A start tag with a class and white space behind it, in the tokenizer of src/libwebvtt/cuetext.c.
use webvtt.Base.{
  ℕ, suc, ◌+◌, ◌≡◌, refl, ◌∙◌, ap, ◌-◌, length-append, true, false, some, [], ◌∷◌, ◌++◌, Bytes,
  List, All, arith, length, append_assoc, append-nil, ◌==◌,
}
use webvtt.CueText.Tokenizer.{
  in_data, tag, start_tag, start_tag_class, start_tag_annotation, start_token, start_tag_state,
  class_loop, Scan, dispatch, scan_loop, scan_start, make_token, tokenizer, is_unfinished, skip_gt,
  token_at,
}
use webvtt.Status.{success}
use webvtt.Text.{isspace, isdigit}

-- A byte of a tag name or of a class.
abbrev pub IsPlain : ℕ → Type 0
IsPlain c = (isspace c ≡ false) × ((c == b'.') ≡ false) × ((c == b'>') ≡ false)

start_tag_plain :
    (n p r : Bytes) → All IsPlain n → start_tag_state (n ++ p) r ≡ start_tag_state p (r ++ n)
unfolding start_tag_state
start_tag_plain [] p r h = rw append-nil
start_tag_plain (c ∷ n) p r (hc, hs) =
    rw (hc.0, hc.1, hc.2) (start_tag_plain n p (r ++ c ∷ []) hs ∙ rw append_assoc)

class_plain :
    (n p b : Bytes) (cs : List Bytes)
    → All IsPlain n
    → class_loop (n ++ p) b cs ≡ class_loop p (b ++ n) cs
unfolding class_loop
class_plain [] p b cs h = rw append-nil
class_plain (c ∷ n) p b cs (hc, hs) =
    rw (hc.0, hc.1, hc.2) (class_plain n p (b ++ c ∷ []) cs hs ∙ rw append_assoc)

class_end :
    (d : ℕ) (cls rest : Bytes) (sp : ℕ)
    → isspace sp ≡ true
    → class_loop (sp ∷ rest) (d ∷ cls) []
      ≡ record { state = start_tag_annotation; position = sp ∷ rest; css_classes = (d ∷ cls) ∷ [] }
unfolding class_loop
class_end d cls rest sp h = rw h (ground arith)

scan_step :
    (fuel : ℕ) (t : Scan)
    → is_unfinished t.status ≡ true
    → scan_loop (suc fuel) t ≡ scan_loop fuel (dispatch t.state t)
unfolding scan_loop
scan_step fuel t h = rw h refl

scan_done : (fuel : ℕ) (t : Scan) → is_unfinished t.status ≡ false → scan_loop (suc fuel) t ≡ some t
unfolding scan_loop
scan_done fuel t h = rw h refl

tokenizer_lem : (s : Bytes) → tokenizer s ≡ token_at (scan_loop (length s + 2) (scan_start s))
unfolding tokenizer
tokenizer_lem s = refl

module _ (c d sp : ℕ) (name cls rest : Bytes) where
  abbrev from_class : Bytes
  from_class = b'.' ∷ d ∷ (cls ++ (sp ∷ rest))

  abbrev pub class_tag : Bytes
  class_tag = b'<' ∷ c ∷ (name ++ from_class)

  abbrev in_tag : Scan
  in_tag = record (scan_start (c ∷ (name ++ from_class))) { state = tag }

  abbrev in_name : Scan
  in_name = record (scan_start (name ++ from_class)) { state = start_tag; result = c ∷ [] }

  abbrev in_class : Scan
  in_class = record (scan_start (d ∷ (cls ++ (sp ∷ rest)))) {
    state = start_tag_class;
    result = c ∷ name;
  }

  abbrev at_space : Scan
  at_space = record (scan_start (sp ∷ rest)) {
    status = success;
    state = start_tag_annotation;
    result = c ∷ name;
    css_classes = (d ∷ cls) ∷ [];
  }

  data_round : dispatch in_data (scan_start class_tag) ≡ in_tag
  unfolding dispatch
  data_round = refl

  module _ (hc : IsPlain c) (hd : isdigit c ≡ false) (hs : (c == b'/') ≡ false)
      (hn : All IsPlain name) (hcls : All IsPlain (d ∷ cls)) (h : isspace sp ≡ true) where
    at_space_token :
        token_at (some at_space) ≡ some (start_token (c ∷ name) ((d ∷ cls) ∷ []) [], sp ∷ rest)
    unfolding make_token skip_gt isspace
    at_space_token = ground arith

    name_round : dispatch tag in_tag ≡ in_name
    unfolding dispatch
    name_round = rw (hc.0, hd, hc.1, hs, hc.2)

    class_round : dispatch start_tag in_name ≡ in_class
    unfolding dispatch
    class_round = rw (start_tag_plain name from_class (c ∷ []) hn)

    space_round : dispatch start_tag_class in_class ≡ at_space
    unfolding dispatch
    space_round = rw (class_plain (d ∷ cls) (sp ∷ rest) [] [] hcls, class_end d cls rest sp h)

    class_tag_scan :
        (fuel : ℕ)
        → scan_loop (suc (suc (suc (suc (suc fuel))))) (scan_start class_tag) ≡ some at_space
    class_tag_scan fuel =
        scan_step _ (scan_start class_tag) refl
        ∙ ap (scan_loop _) data_round
        ∙ scan_step _ in_tag refl
        ∙ ap (scan_loop _) name_round
        ∙ scan_step _ in_name refl
        ∙ ap (scan_loop _) class_round
        ∙ scan_step _ in_class refl
        ∙ ap (scan_loop _) space_round
        ∙ scan_done fuel at_space refl

    -- Let a tag have a name that begins with no digit and no slash, and a class, both of one byte or
    -- more and with no white space, full stop or `>` in them. White space behind the class ends the
    -- token there: the annotation is empty, also for a tag that takes one, and the white space and
    -- all that follows it are left to be read as text.
    pub tokenizer_class_annotation :
        tokenizer class_tag ≡ some (start_token (c ∷ name) ((d ∷ cls) ∷ []) [], sp ∷ rest)
    tokenizer_class_annotation =
        let fuel : length class_tag + 2 ≡ suc (suc (suc (suc (suc (length class_tag - 3))))) =
          omega (arith, length-append name from_class) in
        rw (tokenizer_lem class_tag, fuel, class_tag_scan (length class_tag - 3)) at_space_token
