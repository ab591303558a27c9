-- ===== src/Parser/Body/Text.antt =====
-- `webvtt_read_cuetext` and `webvtt_proc_cuetext` (src/libwebvtt/parser.c) end, and what they leave.
use webvtt.Base.{
  ℕ, zero, suc, ◌+◌, ◌*◌, ◌≤◌, ◌<◌, ◌≡◌, refl, sym, ap, subst, ◌⊎◌, inl, inr, Bool, true, false, [],
  ◌∷◌, Bytes, arith, length, ◌||◌, ◌==◌,
}
use webvtt.Lexer.{l_start, l_newline0}
use webvtt.Lexer.Progress.{lex_newline-Begun, lex_newline-Start}
use webvtt.Parser.{Host, Parser, Run, done, fault, too_long, out_of_fuel}
use webvtt.Parser.Body.{Ends, stack_at, TextMode}
use webvtt.Parser.Body.Buffer.{Kept}
use webvtt.Parser.Body.Part.{reading}
use webvtt.Parser.Body.Payload.{
  TextFrames, NextFrames, Released, Less, RoundOk, Finds, read_round_ok,
}
use webvtt.Parser.Payload.{Reading, read_round, read_on, read_more, read_loop}
use webvtt.Parser.Stack.{Frame}

-- The text is over, or the chunk is: between two lines, or, before the last chunk, in one.
abbrev pub OverOk : Bool → ℕ → Reading → Type 0
OverOk finish n r =
    (g : ℕ → Frame) × (r.parser.stack ≡ stack_at g 1)
    × TextMode finish r.parser
    × Less n r.rest
    × (((r.finished ≡ true) × Released r.parser × (TextFrames g ⊎ NextFrames g r.parser.popped))
        ⊎ ((r.finished ≡ false)
            × TextFrames g
            × (r.rest ≡ [])
            × (((finish ≡ false) × Kept r.parser) ⊎ Released r.parser)))

-- Between two lines of a text.
abbrev pub Between : Bool → Reading → Type 0
Between finish r =
    (g : ℕ → Frame) × (r.parser.stack ≡ stack_at g 1)
    × TextMode finish r.parser
    × ((r.finished ≡ false) × Released r.parser × TextFrames g × (r.flags ≡ false))

some_bytes : (rest : Bytes) → (rest ≡ []) ⊎ (0 < length rest)
some_bytes [] = inl refl
some_bytes (c ∷ rest) = inr (omega arith)

Less-le : (n m : ℕ) (rest : Bytes) → m ≤ n → Less m rest → Less n rest
Less-le n m rest le (inl none_left) = inl none_left
Less-le n m rest le (inr less) = inr (omega arith)

read_on_ok :
    (finish : Bool) (n m : ℕ) (more : Reading → Run Reading) (r : Reading)
    → m ≤ n
    → RoundOk finish m r
    → ((q : Reading)
        → Between finish q
        → 0 < length q.rest
        → 2 * length q.rest < m
        → Ends (OverOk finish n) (more q))
    → Ends (OverOk finish n) (read_on more r (length r.rest == 0 || r.finished))
read_on_ok finish n m more r le (g, e, going, less, inl (over, fresh, frames)) later =
    let stop : (length r.rest == 0 || r.finished) ≡ true = ground arith in
    rw stop (g, e, going, Less-le n m r.rest le less, inl (over, fresh, frames))
read_on_ok finish n m more r le (g, e, going, less, inr (inr (goes, frames, none_left, last, kept)))
      later =
    let stop : (length r.rest == 0 || r.finished) ≡ true = rw none_left refl in
    rw stop (g, e, going, inl none_left, inr (goes, frames, none_left, inl (last, kept)))
read_on_ok finish n m more r le (g, e, going, less, inr (inl (goes, fresh, frames, flags))) later =
    elim (some_bytes r.rest) [
      | inl none_left ↦
          let stop : (length r.rest == 0 || r.finished) ≡ true = rw none_left refl in
          rw stop (g, e, going, inl none_left, inr (goes, frames, none_left, inr fresh))
      | inr some_left ↦
          let on : (length r.rest == 0 || r.finished) ≡ false = ground arith in
          let fewer : 2 * length r.rest < m = elim less [
            | inl none_left ↦ absurd (omega (arith, some_left, ap (λ t. length t) none_left))
            | inr lt ↦ lt
          ] in
          rw on (later r (g, e, going, (goes, fresh, frames, flags)) some_left fewer)
    ]

pub read_more_ok :
    (finish : Bool) (n m : ℕ) (more : Reading → Run Reading) (r : Run Reading)
    → m ≤ n
    → Ends (RoundOk finish m) r
    → ((q : Reading)
        → Between finish q
        → 0 < length q.rest
        → 2 * length q.rest < m
        → Ends (OverOk finish n) (more q))
    → Ends (OverOk finish n) (read_more more r)
read_more_ok finish n m more (done r) le ok later = read_on_ok finish n m more r le ok later
read_more_ok finish n m more fault le ok later = ok
read_more_ok finish n m more too_long le ok later = tt
read_more_ok finish n m more out_of_fuel le ok later = ok

between_reading :
    (r : Reading) (g : ℕ → Frame)
    → r.parser.stack ≡ stack_at g 1
    → r.finished ≡ false
    → r.flags ≡ false
    → reading r.parser g r.rest false ≡ r
between_reading r g e over flags = λ i. record {
  parser = record (r.parser) { stack = sym e i };
  rest = r.rest;
  finished = sym over i;
  flags = sym flags i;
}

pub fresh-Finds :
    (finish : Bool) (p : Parser) (k : ℕ)
    → p.lexer.tstate ≡ l_start
    → length p.lexer.token ≡ k
    → k ≤ 2
    → Finds finish p 0 k
fresh-Finds finish p k start token small rest end =
    lex_newline-Start finish rest p.lexer k end start token small

pub begun-Finds :
    (finish : Bool) (p : Parser) (k : ℕ)
    → p.lexer.tstate ≡ l_newline0
    → length p.lexer.token ≡ k + 1
    → k ≤ 2
    → Finds finish p 1 k
begun-Finds finish p k begun token small rest end =
    lex_newline-Begun finish rest p.lexer k begun token small

Between-round :
    (h : Host) (finish : Bool) (r : Reading)
    → Between finish r
    → 0 < length r.rest
    → Ends (RoundOk finish (2 * length r.rest)) (read_round h finish r)
Between-round h finish r (g, e, going, (over, fresh, frames, flags)) some_left =
    subst (λ q. Ends (RoundOk finish (2 * length r.rest)) (read_round h finish q))
      (between_reading r g e over flags)
      (read_round_ok h finish r.parser g r.rest (2 * length r.rest) 0 0 frames going (rw fresh.1 tt)
        (inl (fresh.0.0, omega (arith, fresh.0.1))) some_left (omega arith) (omega arith)
        (fresh-Finds finish r.parser 0 fresh.0.0 fresh.0.1 (omega arith)))

pub read_loop-Between :
    (fuel : ℕ) (h : Host) (finish : Bool) (n : ℕ) (r : Reading)
    → Between finish r
    → 0 < length r.rest
    → 2 * length r.rest ≤ n
    → 2 * length r.rest < fuel
    → Ends (OverOk finish n) (read_loop fuel h finish r)
unfolding read_loop
read_loop-Between zero h finish n r between some_left le less = absurd (omega arith)
read_loop-Between (suc fuel) h finish n r between some_left le less =
    read_more_ok finish n (2 * length r.rest) (read_loop fuel h finish) (read_round h finish r) le
      (Between-round h finish r between some_left)
      (λ q b left l.
        read_loop-Between fuel h finish n q b left (omega (arith, l)) (omega (arith, l)))
