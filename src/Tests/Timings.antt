-- ===== src/Tests/Timings.antt =====
-- The line of a cue's times: runs, and the theorems at a concrete line.
use webvtt.Base.{
  ◌+◌, ◌≡◌, ◌≢◌, ◌<◌, refl, ap, Bool, true, Option, none, some, [], ◌∷◌, arith, Bytes, codes,
  length,
}
use webvtt.Cue.{create_cue}
use webvtt.Cue.Apply.{Report, Walk, validate_set_settings}
use webvtt.Status.{Status, success, bad_cue, parse_error}
use webvtt.Text.{isdigit, isspace}
use webvtt.Timestamp.RoundTrip.{IsNumeral}
use webvtt.Timings.{Timings, collect_timings_and_settings, collect_timestamp}
use webvtt.Timestamp.{parse_timestamp}
use webvtt.Timings.Times.{Time, IsTime, size, times_line, collect_timings_and_settings_times}
use webvtt.Timings.Total.{Ends, collect_timings_and_settings_total}

abbrev status_of : Option Timings → Status
status_of none = success
status_of (some r) = r.status

abbrev go_on : Report → Bool
go_on r = true

no_arrow_test :
    status_of (collect_timings_and_settings go_on 1 1 create_cue (codes "00:01.000 -> 00:02.000"))
    ≡ parse_error
unfolding collect_timings_and_settings collect_timestamp parse_timestamp
no_arrow_test = refl

no_time_test :
    status_of (collect_timings_and_settings go_on 1 1 create_cue (codes "--> 1")) ≡ bad_cue
unfolding collect_timings_and_settings collect_timestamp parse_timestamp
no_time_test = refl

filled : (xs : Bytes) → 0 < length xs → xs ≢ []
filled [] p e = absurd (omega arith)
filled (x ∷ xs) p e = absurd (omega (arith, ap (λ l. length l) e))

two_digits : IsNumeral (codes "02")
unfolding isdigit
two_digits = record {
  digits = (refl, (refl, tt));
  nonempty = filled (codes "02") (omega arith);
  small = omega arith;
}

three_digits : IsNumeral (codes "500")
unfolding isdigit
three_digits = record {
  digits = (refl, (refl, (refl, tt)));
  nonempty = filled (codes "500") (omega arith);
  small = omega arith;
}

abbrev late : Time
late = record {
  hours = codes "02";
  minutes = codes "02";
  seconds = codes "02";
  fraction = codes "500";
}

late-IsTime : IsTime late
late-IsTime = record {
  hours = two_digits;
  minutes = two_digits;
  seconds = two_digits;
  fraction = three_digits;
  two_minutes = refl;
  two_seconds = refl;
  three_digits = refl;
  an_hour = omega arith;
  a_minute = omega arith;
  fits = omega arith;
}

collect_timings_and_settings_total_example :
    Ends create_cue (collect_timings_and_settings go_on 3 1 create_cue (codes "00:01.000 --> "))
collect_timings_and_settings_total_example =
    collect_timings_and_settings_total go_on 3 1 create_cue (codes "00:01.000 --> ")

collect_timings_and_settings_times_example :
    (w : Walk) × (r : Timings) × (validate_set_settings
        (some (3, 1 + size late + 5 + size late))
        (record create_cue { from = 7322500; until = 7322500 })
        (codes " size:40%")
      ≡ some w)
    × (collect_timings_and_settings go_on 3 1 create_cue (times_line late late (codes " size:40%"))
        ≡ some r)
    × (r.status ≡ success)
    × (r.cue ≡ w.cue)
    × (r.cue.from ≡ 7322500)
    × (r.cue.until ≡ 7322500)
    × (r.reports ≡ w.reports)
collect_timings_and_settings_times_example =
    collect_timings_and_settings_times go_on 3 create_cue 1 late late (codes " size:40%")
      late-IsTime late-IsTime (unfold isspace in refl)
