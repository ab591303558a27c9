-- ===== src/Timestamp/Digits.antt =====
-- `webvtt_parse_int` (src/libwebvtt/parser.c) against the value of a decimal numeral.
use mathlib.Core.List.{foldl}
use webvtt.Base.{
  ℕ, ◌+◌, ◌-◌, ◌*◌, ◌%◌, ◌<◌, ◌≡◌, ◌≢◌, refl, ◌∙◌, Bool, true, false, [], ◌∷◌, ◌++◌, arith, Bytes,
  All, if◌then◌else◌, peek, length,
}
use webvtt.Text.{isdigit}
use webvtt.Timestamp.{word_64, parse_int_loop, parse_int}

abbrev pub IsDigits : Bytes → Type 0
IsDigits = All (λ c. isdigit c ≡ true)

-- The number that digits spell behind `n`, with no bound.
abbrev pub value_from : ℕ → Bytes → ℕ
value_from = foldl (λ n c. n * 10 + (c - b'0'))

abbrev pub value : Bytes → ℕ
value = value_from 0

value_from-mod :
    (ds : Bytes) (a b : ℕ)
    → a % word_64 ≡ b % word_64
    → value_from a ds % word_64 ≡ value_from b ds % word_64
value_from-mod [] a b h = h
value_from-mod (c ∷ ds) a b h =
    value_from-mod ds (a * 10 + (c - b'0')) (b * 10 + (c - b'0')) (omega arith)

abbrev negate_if : Bool → ℕ → ℕ
negate_if negative n = if negative then (word_64 - n) % word_64 else n

loop_stop :
    (rest : Bytes) (r d : ℕ) (negative : Bool)
    → isdigit (peek rest) ≡ false
    → 0 < d
    → parse_int_loop rest r d negative
      ≡ record { number = negate_if negative r; digits = d; rest = rest }
unfolding parse_int_loop
loop_stop [] r d negative h p = refl
loop_stop (c ∷ rest) r d negative h p = ground arith

loop_digits :
    (ds rest : Bytes) (r d : ℕ) (negative : Bool)
    → IsDigits ds
    → isdigit (peek rest) ≡ false
    → 0 < d + length ds
    → r < word_64
    → parse_int_loop (ds ++ rest) r d negative ≡ record {
      number = negate_if negative (value_from r ds % word_64);
      digits = d + length ds;
      rest = rest;
    }
loop_digits [] rest r d negative h stop p fits =
    loop_stop rest r d negative stop (omega arith) ∙ ground arith
loop_digits (c ∷ ds) rest r d negative (hc, hs) stop p fits =
    let r' = (r * 10 + (c - b'0')) % word_64 in
    let step : parse_int_loop (c ∷ (ds ++ rest)) r d negative
        ≡ parse_int_loop (ds ++ rest) r' (d + 1) negative =
      unfold parse_int_loop in ground arith in
    step
    ∙ loop_digits ds rest r' (d + 1) negative hs stop (omega arith) (omega arith)
    ∙ ground (arith, value_from-mod ds r' (r * 10 + (c - b'0')) (omega arith))

-- Digits up to the first byte that is none: the value modulo 2 ^ 64, and the text behind them.
pub parse_int_digits :
    (ds rest : Bytes)
    → IsDigits ds
    → ds ≢ []
    → isdigit (peek rest) ≡ false
    → parse_int (ds ++ rest)
      ≡ record { number = value ds % word_64; digits = length ds; rest = rest }
unfolding parse_int
parse_int_digits [] rest h ne stop = absurd (ne refl)
parse_int_digits (c ∷ ds) rest h ne stop =
    loop_digits (c ∷ ds) rest 0 0 false h stop (omega arith) (omega arith) ∙ ground arith

-- One or more digits behind a minus sign, up to the first byte that is none, are read as the negative
-- of their value, as a pattern of 64 bits; the sign is not counted as a digit.
pub parse_int_signed :
    (ds rest : Bytes)
    → IsDigits ds
    → ds ≢ []
    → isdigit (peek rest) ≡ false
    → parse_int (b'-' ∷ (ds ++ rest)) ≡ record {
      number = (word_64 - value ds % word_64) % word_64;
      digits = length ds;
      rest = rest;
    }
unfolding parse_int
parse_int_signed [] rest h ne stop = absurd (ne refl)
parse_int_signed (c ∷ ds) rest h ne stop =
    loop_digits (c ∷ ds) rest 0 0 true h stop (omega arith) (omega arith) ∙ ground arith
