-- ===== src/Timestamp.antt =====
-- src/libwebvtt/parser.c: `webvtt_parse_int` and `webvtt_parse_timestamp`.
-- A 64-bit integer is its bit pattern, a number below 2 ^ 64. Signed arithmetic that overflows is
-- undefined in C; here it wraps around. A text is the list of its bytes up to the NUL.
pub mod Digits
pub mod RoundTrip
use webvtt.Base.{
  ℕ, ◌+◌, ◌-◌, ◌*◌, ◌/◌, ◌%◌, ◌^◌, Bool, true, false, not, ◌&&◌, ◌||◌, [], ◌∷◌, Bytes, ltb, ◌==◌,
  if◌then◌else◌, peek, advance,
}
use webvtt.Text.{isdigit}

abbrev pub word_64 : ℕ
word_64 = 2 ^ 64

-- `a > k` on signed 64-bit integers, for a constant k that is not negative.
abbrev pub exceeds : ℕ → ℕ → Bool
exceeds a k = ltb k a && ltb a (2 ^ 63)

-- What `webvtt_parse_int` returns and writes: the value, `*pdigits`, and the text behind `*pb`.
pub record Scanned : Type 0 where
  pub number : ℕ
  pub digits : ℕ
  pub rest : Bytes

-- The arguments are `result`, `digits`, and whether `mul` is -1.
parse_int_loop : Bytes → ℕ → ℕ → Bool → Scanned
unfolding isdigit
parse_int_loop [] result digits negative = record {
  number = if negative then (word_64 - result) % word_64 else result;
  digits = digits;
  rest = [];
}
parse_int_loop (ch ∷ b) result digits negative =
    let carry_on = parse_int_loop b ((result * 10 + (ch - b'0')) % word_64) (digits + 1) negative in
    let signed = parse_int_loop b result digits true in
    if isdigit ch
    then carry_on
    else if not negative && digits == 0 && ch == b'-'
    then signed
    else record {
      number = if negative then (word_64 - result) % word_64 else result;
      digits = digits;
      rest = ch ∷ b;
    }

unfoldable pub parse_int : Bytes → Scanned
unfolding parse_int_loop
parse_int b = parse_int_loop b 0 0 false

-- The return value, `*tokenLength` and `*result`.
pub record Stamp : Type 0 where
  pub valid : Bool
  pub length : ℕ
  pub time : ℕ

abbrev pub bad_time : ℕ
bad_time = 2 ^ 64 - 1

abbrev not_timestamp : ℕ → Stamp
not_timestamp n = record { valid = false; length = n; time = bad_time }

-- `if( x > unit - 1 ) { next += x / unit; x %= unit; }`: the new `next`, and the new `x`.
carry_into : ℕ → ℕ → ℕ → ℕ
carry_into unit next x = if exceeds x (unit - 1) then (next + x / unit) % word_64 else next

carry_left : ℕ → ℕ → ℕ
carry_left unit x = if exceeds x (unit - 1) then x % unit else x

-- The last part: v[3], v[2] and v[1], each carried into the one before it.
combine : Bool → ℕ → ℕ → ℕ → ℕ → ℕ → Stamp
combine malformed n h m s f =
    let s' = carry_into 1000 s f in
    let m' = carry_into 60 m s' in
    let h' = carry_into 60 h m' in
    record {
      valid = not (malformed || exceeds f 999 || exceeds s' 59 || exceeds m' 59);
      length = n;
      time =
          (h' * 3600000 + carry_left 60 m' * 60000 + carry_left 60 s' * 1000 + carry_left 1000 f)
          % word_64;
    }

-- The fraction, from the text that should begin with a full stop.
fraction : Bool → ℕ → ℕ → ℕ → ℕ → Bytes → Stamp
unfolding combine carry_into carry_left parse_int isdigit
fraction malformed n h m s b =
    let f = parse_int (advance b) in
    if not (peek b == b'.') || not (isdigit (peek (advance b)))
    then not_timestamp n
    else combine (malformed || not (f.digits == 3)) (n + 1 + f.digits) h m s f.number

-- The third number, behind its colon.
third : Bool → ℕ → ℕ → ℕ → Bytes → Stamp
unfolding fraction
third malformed n v0 v1 b =
    let v2 = parse_int b in
    if not (isdigit (peek b))
    then fraction true n v0 v1 0 b
    else fraction (malformed || not (v2.digits == 2)) (n + v2.digits) v0 v1 v2.number v2.rest

-- What follows the first two numbers.
after_second : Bool → Bool → ℕ → ℕ → ℕ → Bytes → Stamp
unfolding third
after_second have_hours malformed n v0 v1 b =
    if have_hours || peek b == b':'
    then (if peek b == b'.'
        then fraction true n 0 v0 v1 b
        else if not (peek b == b':')
        then not_timestamp n
        else third malformed (n + 1) v0 v1 (advance b))
    else fraction malformed n 0 v0 v1 b

after_first : Scanned → Stamp
unfolding after_second
after_first v0 =
    let have_hours = not (v0.digits == 2) || exceeds v0.number 59 in
    let b = advance v0.rest in
    let v1 = parse_int b in
    if not (peek v0.rest == b':')
    then not_timestamp v0.digits
    else if not (isdigit (peek b))
    then not_timestamp (v0.digits + 1)
    else after_second have_hours (not (v1.digits == 2)) (v0.digits + 1 + v1.digits) v0.number
        v1.number v1.rest

unfoldable pub parse_timestamp : Bytes → Stamp
unfolding after_first
parse_timestamp b = if not (isdigit (peek b)) then not_timestamp 0 else after_first (parse_int b)
