-- ===== src/Tests/Settings.antt =====
-- Cue settings: runs, and the theorems at concrete inputs.
use webvtt.Base.{
  ◌%◌, ◌^◌, ◌-◌, ◌≤◌, ◌<◌, ◌≡◌, ◌≢◌, refl, ap, inl, ◌⊎◌, true, false, some, [], ◌∷◌, arith, Bytes,
  codes, length,
}
use webvtt.Cue.{create_cue, left}
use webvtt.Cue.Apply.{Walk, line_length, validate_set_settings}
use webvtt.Cue.Apply.Total.{validate_set_settings_total}
use webvtt.Cue.Setters.{set_align, set_size, set_position, set_setting_from_string, set_line, to_32}
use webvtt.Cue.Setters.Frame.{Keeps, Explained, set_setting_from_string-Explained}
use webvtt.Cue.Setters.Percent.{
  percent, set_size_sound, set_position_sound, set_position_complete, set_position_wraps,
}
use webvtt.Status.{success, bad_size, bad_position}
use webvtt.Text.{isdigit}
use webvtt.Timestamp.{word_64, exceeds}
use webvtt.Timestamp.Digits.{IsDigits, value}
use webvtt.Timestamp.RoundTrip.{IsNumeral}

filled : (xs : Bytes) → 0 < length xs → xs ≢ []
filled [] p e = absurd (omega arith)
filled (x ∷ xs) p e = absurd (omega (arith, ap (λ l. length l) e))

one : IsNumeral (codes "01")
unfolding isdigit
one = record {
  digits = (refl, (refl, tt));
  nonempty = filled (codes "01") (omega arith);
  small = omega arith;
}

settings_test : (set_setting_from_string create_cue (codes "align:left")).1.settings.align ≡ left
unfolding set_setting_from_string set_align
settings_test = refl

line_test : (set_line create_cue (codes "-1")).1.settings.line ≡ 2 ^ 32 - 1
unfolding set_line
line_test = refl

validate_set_settings_total_example :
    (w : Walk) × (validate_set_settings (some (3, 20)) create_cue (codes "align:left bad") ≡ some w)
    × (line_length (codes "align:left bad") ≤ w.position)
    × Keeps create_cue w.cue
validate_set_settings_total_example =
    validate_set_settings_total (some (3, 20)) create_cue (codes "align:left bad")

set_setting_from_string-Explained_example :
    Explained create_cue (set_setting_from_string create_cue (codes "size:101%"))
set_setting_from_string-Explained_example =
    set_setting_from_string-Explained create_cue (codes "size:101%")

set_position_complete_example : (set_position create_cue (percent (codes "01"))).0 ≡ success
set_position_complete_example =
    set_position_complete create_cue (codes "01") one.digits one.nonempty (omega arith)

abbrev huge : Bytes
huge = codes "18446744073709551626"

huge-IsDigits : IsDigits huge
unfolding isdigit
huge-IsDigits = ground arith

set_position_wraps_example : (set_position create_cue (percent huge)).0 ≢ bad_position
set_position_wraps_example =
    set_position_wraps create_cue huge huge-IsDigits (filled huge (omega arith)) (inl (omega arith))

set_position_sound_example :
    (set_position create_cue (codes "40%") ≡ (bad_position, create_cue))
    ⊎ ((ds : Bytes) × (codes "40%" ≡ percent ds)
        × IsDigits ds
        × (ds ≢ [])
        × (exceeds (value ds % word_64) 100 ≡ false)
        × ((set_position create_cue (codes "40%")).0 ≡ success)
        × ((set_position create_cue (codes "40%")).1 ≡ record create_cue {
          settings = record (create_cue.settings) { position = to_32 (value ds % word_64) };
          flags = record (create_cue.flags) { have_position = true };
        }))
set_position_sound_example = set_position_sound create_cue (codes "40%")

set_size_sound_example :
    (set_size create_cue (codes "40%") ≡ (bad_size, create_cue))
    ⊎ ((ds : Bytes) × (codes "40%" ≡ percent ds)
        × IsDigits ds
        × (ds ≢ [])
        × (exceeds (value ds % word_64) 100 ≡ false)
        × ((set_size create_cue (codes "40%")).0 ≡ success)
        × ((set_size create_cue (codes "40%")).1 ≡ record create_cue {
          settings = record (create_cue.settings) { size = to_32 (value ds % word_64) };
          flags = record (create_cue.flags) { have_size = true };
        }))
set_size_sound_example = set_size_sound create_cue (codes "40%")
