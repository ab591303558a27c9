-- ===== src/CueText/Tokenizer/Consume.antt =====
-- Every token takes a byte at least, and the tokenizer of src/libwebvtt/cuetext.c ends.
use webvtt.Base.{
  ℕ, zero, suc, ◌+◌, ◌≤◌, ◌<◌, ◌≡◌, true, Bool-cases, inl, inr, some, [], ◌∷◌, ◌++◌, Bytes, List,
  arith, length, if◌then◌else◌,
}
use webvtt.Status.{Status}
use webvtt.CueText.Tokenizer.{
  TokenState, in_data, escape, tag, start_tag, start_tag_class, start_tag_annotation, end_tag,
  time_stamp_tag, Token, data_state, escape_loop, tag_state, start_tag_state, class_loop,
  read_to_gt, Scan, dispatch, is_unfinished, scan_loop, skip_gt, scan_start, make_token, tokenizer,
}

-- A routine takes no byte or more, and one at least if it is unfinished.
record Takes (before : Bytes) (status : Status) (after : Bytes) : Type 0 where
  no_more : length after ≤ length before
  fewer : is_unfinished status ≡ true → length after < length before

data_state-Takes : (p r : Bytes) → Takes p (data_state p r).status (data_state p r).position
unfolding data_state
data_state-Takes [] r = ground arith
data_state-Takes (c ∷ p) r = ground (arith, data_state-Takes p (r ++ c ∷ []))

escape_loop-Takes :
    (p b r : Bytes) → Takes p (escape_loop p b r).status (escape_loop p b r).position
unfolding escape_loop
escape_loop-Takes [] b r = ground arith
escape_loop-Takes (c ∷ p) b r =
    ground (arith, escape_loop-Takes p (b'&' ∷ []) (r ++ b), escape_loop-Takes p (b ++ c ∷ []) r)

tag_state-Takes : (p r : Bytes) → Takes p (tag_state p r).status (tag_state p r).position
unfolding tag_state
tag_state-Takes [] r = ground arith
tag_state-Takes (c ∷ p) r = ground arith

start_tag_state-Takes :
    (p r : Bytes) → Takes p (start_tag_state p r).status (start_tag_state p r).position
unfolding start_tag_state
start_tag_state-Takes [] r = ground arith
start_tag_state-Takes (c ∷ p) r = ground (arith, start_tag_state-Takes p (r ++ c ∷ []))

class_loop-le : (p b : Bytes) (cs : List Bytes) → length (class_loop p b cs).position ≤ length p
unfolding class_loop
class_loop-le [] b cs = omega arith
class_loop-le (c ∷ p) b cs =
    ground (arith, class_loop-le p [] (cs ++ b ∷ []), class_loop-le p (b ++ c ∷ []) cs)

read_to_gt-le : (p r : Bytes) → length (read_to_gt p r).0 ≤ length p
unfolding read_to_gt
read_to_gt-le [] r = omega arith
read_to_gt-le (c ∷ p) r = ground (arith, read_to_gt-le p (r ++ c ∷ []))

dispatch-Takes :
    (k : TokenState) (t : Scan) → Takes t.position (dispatch k t).status (dispatch k t).position
unfolding dispatch
dispatch-Takes in_data t = data_state-Takes t.position t.result
dispatch-Takes escape t = escape_loop-Takes t.position (b'&' ∷ []) t.result
dispatch-Takes tag t = tag_state-Takes t.position t.result
dispatch-Takes start_tag t = start_tag_state-Takes t.position t.result
dispatch-Takes start_tag_class t = ground (arith, class_loop-le t.position [] t.css_classes)
dispatch-Takes start_tag_annotation t = ground (arith, read_to_gt-le t.position t.annotation)
dispatch-Takes end_tag t = ground (arith, read_to_gt-le t.position t.result)
dispatch-Takes time_stamp_tag t = ground (arith, read_to_gt-le t.position t.result)

-- The rounds that are left at most.
abbrev rounds : Status → Bytes → ℕ
rounds status position = if is_unfinished status then length position + 1 else 0

-- With fuel for the bytes that are left, the loop ends, and takes no byte twice.
scan_loop_total :
    (fuel : ℕ) (t : Scan)
    → rounds t.status t.position < fuel
    → (t' : Scan) × (scan_loop fuel t ≡ some t') × (length t'.position ≤ length t.position)
unfolding scan_loop
scan_loop_total zero t f = absurd (omega arith)
scan_loop_total (suc fuel) t f = elim (Bool-cases (is_unfinished t.status)) [
  | inr done ↦ (t, rw done, omega arith)
  | inl more ↦
      let k = dispatch-Takes t.state t in
      let (t', e, le) = scan_loop_total fuel (dispatch t.state t) (ground (arith, k)) in
      (t', rw more e, omega (arith, k.no_more))
]

data_state_first : (c : ℕ) (s : Bytes) → length (data_state (c ∷ s) []).position ≤ length s
unfolding data_state
data_state_first c s = ground (arith, data_state-Takes s (c ∷ []))

skip_gt-le : (p : Bytes) → length (skip_gt p) ≤ length p
unfolding skip_gt
skip_gt-le [] = ground arith
skip_gt-le (c ∷ p) = ground arith

-- At a text that is not at its end the tokenizer ends with a token, and takes one byte or more.
pub tokenizer_total :
    (c : ℕ) (s : Bytes)
    → (token : Token) × (rest : Bytes) × (tokenizer (c ∷ s) ≡ some (token, rest))
      × (length rest ≤ length s)
tokenizer_total c s =
    let t = dispatch in_data (scan_start (c ∷ s)) in
    let k = dispatch-Takes in_data (scan_start (c ∷ s)) in
    let first : length t.position ≤ length s = unfold dispatch in data_state_first c s in
    let (t', e, le) = scan_loop_total (length s + 2) t (ground (arith, k)) in
    let step : scan_loop (length (c ∷ s) + 2) (scan_start (c ∷ s)) ≡ some t' =
      unfold scan_loop in ground arith in
    (
      make_token t'.state t',
      skip_gt t'.position,
      unfold tokenizer in rw (step, tokenizer),
      omega (arith, skip_gt-le t'.position),
    )
