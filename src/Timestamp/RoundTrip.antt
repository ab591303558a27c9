-- ===== src/Timestamp/RoundTrip.antt =====
-- `webvtt_parse_timestamp` (src/libwebvtt/parser.c) on the texts that spell a time.
use webvtt.Base.{
  ℕ, ◌+◌, ◌*◌, ◌/◌, ◌%◌, ◌^◌, ◌≤◌, ◌<◌, ◌≡◌, ◌≢◌, refl, ◌∙◌, Bool, true, false, not, ◌&&◌, ◌||◌, [],
  ◌∷◌, ◌++◌, arith, Bytes, leb, ◌==◌, peek, length,
}
use webvtt.Text.{isdigit}
use webvtt.Timestamp.{
  word_64, exceeds, Scanned, parse_int, carry_into, carry_left, combine, fraction, third,
  after_second, after_first, parse_timestamp,
}
use webvtt.Timestamp.Digits.{IsDigits, value, parse_int_digits}

-- A run of digits whose value leaves room for the carries.
pub record IsNumeral (ds : Bytes) : Type 0 where
  pub digits : IsDigits ds
  pub nonempty : ds ≢ []
  pub small : value ds < 2 ^ 62

abbrev pub total : ℕ → ℕ → ℕ → ℕ → ℕ
total h m s f = h * 3600000 + m * 60000 + s * 1000 + f

carry_1000 :
    (next x : ℕ)
    → x < 2 ^ 62
    → next < 2 ^ 62
    → (carry_into 1000 next x * 1000 + carry_left 1000 x ≡ next * 1000 + x)
      × (carry_into 1000 next x ≤ next + x / 1000)
unfolding carry_into carry_left
carry_1000 next x hx hn = ground arith

carry_60 :
    (next x : ℕ)
    → x < 2 ^ 63
    → next < 2 ^ 62
    → (carry_into 60 next x * 60 + carry_left 60 x ≡ next * 60 + x)
      × (carry_into 60 next x ≤ next + x / 60)
unfolding carry_into carry_left
carry_60 next x hx hn = ground arith

combine-time :
    (malformed : Bool) (n h m s f : ℕ)
    → h < 2 ^ 62
    → m < 2 ^ 62
    → s < 2 ^ 62
    → f < 2 ^ 62
    → (combine malformed n h m s f).time ≡ total h m s f % word_64
unfolding combine
combine-time malformed n h m s f hh hm hs hf =
    let s' = carry_into 1000 s f in
    let m' = carry_into 60 m s' in
    let (es, bs) = carry_1000 s f hf hs in
    let (em, bm) = carry_60 m s' (omega arith) hm in
    let (eh, bh) = carry_60 h m' (omega arith) hh in omega arith

combine-valid :
    (malformed : Bool) (n h m s f : ℕ)
    → m < 2 ^ 62
    → s < 2 ^ 62
    → f < 2 ^ 62
    → (combine malformed n h m s f).valid ≡ not malformed && leb f 999 && leb s 59 && leb m 59
unfolding combine carry_into
combine-valid malformed n h m s f hm hs hf = ground arith

pub peek_digits : (ds rest : Bytes) → IsDigits ds → ds ≢ [] → isdigit (peek (ds ++ rest)) ≡ true
peek_digits [] rest h ne = absurd (ne refl)
peek_digits (c ∷ ds) rest (hc, hs) ne = hc

module _ (ds rest : Bytes) (n : IsNumeral ds) (stop : isdigit (peek rest) ≡ false) where
  scan_numeral :
      parse_int (ds ++ rest) ≡ record { number = value ds; digits = length ds; rest = rest }
  scan_numeral = parse_int_digits ds rest n.digits n.nonempty stop ∙ ground (arith, n.small)

  fraction_numeral :
      (malformed : Bool) (k h m s : ℕ)
      → fraction malformed k h m s (b'.' ∷ (ds ++ rest))
        ≡ combine (malformed || not (length ds == 3)) (k + 1 + length ds) h m s (value ds)
  unfolding fraction
  fraction_numeral malformed k h m s = rw (scan_numeral, peek_digits ds rest n.digits n.nonempty)

  third_numeral :
      (malformed : Bool) (k v0 v1 : ℕ)
      → third malformed k v0 v1 (ds ++ rest)
        ≡ fraction (malformed || not (length ds == 2)) (k + length ds) v0 v1 (value ds) rest
  unfolding third
  third_numeral malformed k v0 v1 = rw (scan_numeral, peek_digits ds rest n.digits n.nonempty)

  first_numeral :
      (v : Scanned)
      → v.rest ≡ b':' ∷ (ds ++ rest)
      → after_first v
        ≡ after_second
            (not (v.digits == 2) || exceeds v.number 59)
            (not (length ds == 2))
            (v.digits + 1 + length ds)
            v.number
            (value ds)
            rest
  unfolding after_first
  first_numeral v e = rw (e, scan_numeral, peek_digits ds rest n.digits n.nonempty)

  timestamp_numeral :
      parse_timestamp (ds ++ rest)
      ≡ after_first (record { number = value ds; digits = length ds; rest = rest })
  unfolding parse_timestamp
  timestamp_numeral = rw (scan_numeral, peek_digits ds rest n.digits n.nonempty)

three_digits : (ds : Bytes) → IsDigits ds → length ds ≡ 3 → value ds ≤ 999
unfolding isdigit
three_digits [] _ h = absurd (omega arith)
three_digits (a ∷ []) _ h = absurd (omega arith)
three_digits (a ∷ b ∷ []) _ h = absurd (omega arith)
three_digits (a ∷ b ∷ c ∷ []) (ha, (hb, (hc, _))) h = ground arith
three_digits (a ∷ b ∷ c ∷ d ∷ ds) _ h = absurd (omega arith)

-- A colon ends the second number: whatever is known of hours, a third number follows.
after_second_colon :
    (have_hours malformed : Bool) (n v0 v1 : ℕ) (b : Bytes)
    → after_second have_hours malformed n v0 v1 (b':' ∷ b) ≡ third malformed (n + 1) v0 v1 b
unfolding after_second
after_second_colon true malformed n v0 v1 b = refl
after_second_colon false malformed n v0 v1 b = refl

-- A full stop ends it: there are no hours, and the time is malformed if some were expected.
after_second_stop :
    (have_hours malformed : Bool) (n v0 v1 : ℕ) (b : Bytes)
    → after_second have_hours malformed n v0 v1 (b'.' ∷ b)
      ≡ fraction (have_hours || malformed) n 0 v0 v1 (b'.' ∷ b)
unfolding after_second
after_second_stop true malformed n v0 v1 b = refl
after_second_stop false malformed n v0 v1 b = refl

abbrev pub seconds_text : Bytes → Bytes → Bytes → Bytes
seconds_text ss fs rest = ss ++ (b'.' ∷ (fs ++ rest))

abbrev pub short_text : Bytes → Bytes → Bytes → Bytes → Bytes
short_text ms ss fs rest = ms ++ (b':' ∷ seconds_text ss fs rest)

abbrev pub long_text : Bytes → Bytes → Bytes → Bytes → Bytes → Bytes
long_text hs ms ss fs rest = hs ++ (b':' ∷ short_text ms ss fs rest)

module _ (ms ss fs rest : Bytes) (nm : IsNumeral ms) (ns : IsNumeral ss) (nf : IsNumeral fs)
    (stop : isdigit (peek rest) ≡ false) where
  long_combine :
      (hs : Bytes)
      → IsNumeral hs
      → parse_timestamp (long_text hs ms ss fs rest)
        ≡ combine
            ((not (length ms == 2) || not (length ss == 2)) || not (length fs == 3))
            (length hs + 1 + length ms + 1 + length ss + 1 + length fs)
            (value hs)
            (value ms)
            (value ss)
            (value fs)
  unfolding isdigit
  long_combine hs nh =
      timestamp_numeral hs (b':' ∷ short_text ms ss fs rest) nh refl
      ∙ first_numeral ms (b':' ∷ seconds_text ss fs rest) nm refl _ refl
      ∙ after_second_colon _ _ _ _ _ (seconds_text ss fs rest)
      ∙ third_numeral ss (b'.' ∷ (fs ++ rest)) ns refl _ _ _ _
      ∙ fraction_numeral fs rest nf stop _ _ _ _ _

  short_combine :
      parse_timestamp (short_text ms ss fs rest)
      ≡ combine
          (((not (length ms == 2) || exceeds (value ms) 59) || not (length ss == 2))
            || not (length fs == 3))
          (length ms + 1 + length ss + 1 + length fs)
          0
          (value ms)
          (value ss)
          (value fs)
  unfolding isdigit
  short_combine =
      timestamp_numeral ms (b':' ∷ seconds_text ss fs rest) nm refl
      ∙ first_numeral ss (b'.' ∷ (fs ++ rest)) ns refl _ refl
      ∙ after_second_stop _ _ _ _ _ (fs ++ rest)
      ∙ fraction_numeral fs rest nf stop _ _ _ _ _

  -- Let hours, minutes, seconds and fraction each be one or more digits of a value below 2 ^ 62, and
  -- no digit stand behind them. Then `hours:minutes:seconds.fraction` is read as its number of
  -- milliseconds modulo 2 ^ 64, and all of its text is taken. It is valid exactly if the minutes
  -- and seconds have two digits and are at most 59, and the fraction has three digits.
  pub parse_timestamp_hours :
      (hs : Bytes)
      → IsNumeral hs
      → ((parse_timestamp (long_text hs ms ss fs rest)).time
          ≡ total (value hs) (value ms) (value ss) (value fs) % word_64)
        × ((parse_timestamp (long_text hs ms ss fs rest)).length
            ≡ length hs + length ms + length ss + length fs + 3)
        × ((parse_timestamp (long_text hs ms ss fs rest)).valid
            ≡ (length ms == 2)
              && (length ss == 2)
              && (length fs == 3)
              && leb (value ms) 59
              && leb (value ss) 59)
  parse_timestamp_hours hs nh = rw (long_combine hs nh) (
    combine-time _ _ _ _ _ _ nh.small nm.small ns.small nf.small,
    unfold combine in omega arith,
    combine-valid _ _ _ _ _ _ nm.small ns.small nf.small
        ∙ ground (arith, three_digits fs nf.digits),
  )

  -- Let minutes, seconds and fraction each be one or more digits of a value below 2 ^ 62, and no
  -- digit stand behind them. Then `minutes:seconds.fraction` is read as its number of milliseconds
  -- modulo 2 ^ 64, and all of its text is taken. It is valid exactly if the minutes and seconds have
  -- two digits and are at most 59, and the fraction has three digits.
  pub parse_timestamp_minutes :
      ((parse_timestamp (short_text ms ss fs rest)).time
        ≡ total 0 (value ms) (value ss) (value fs) % word_64)
      × ((parse_timestamp (short_text ms ss fs rest)).length
          ≡ length ms + length ss + length fs + 2)
      × ((parse_timestamp (short_text ms ss fs rest)).valid
          ≡ (length ms == 2)
            && (length ss == 2)
            && (length fs == 3)
            && leb (value ms) 59
            && leb (value ss) 59)
  parse_timestamp_minutes = rw short_combine (
    combine-time _ _ _ _ _ _ (omega arith) nm.small ns.small nf.small,
    unfold combine in omega arith,
    combine-valid _ _ _ _ _ _ nm.small ns.small nf.small
        ∙ ground (arith, three_digits fs nf.digits, nm.small),
  )
