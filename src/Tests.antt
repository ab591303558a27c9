-- ===== src/Tests.antt =====
-- Runs of the definitions on texts that a reader can follow, and the theorems at concrete inputs.
mod Memory
mod Parser
mod Settings
mod Strings
mod Timings
use webvtt.Base.{
  ℕ, zero, suc, ◌%◌, ◌^◌, ◌-◌, ◌≤◌, ◌<◌, ◌≡◌, ◌≢◌, refl, ap, inl, inr, ◌⊎◌, Bool, true, false,
  Option, none, some, [], ◌∷◌, ◌++◌, arith, Bytes, codes, All, length,
}
use webvtt.Cue.{create_cue, left}
use webvtt.Cue.Apply.{Walk, line_length, validate_set_settings}
use webvtt.Cue.Apply.Total.{validate_set_settings_total}
use webvtt.Cue.Setters.{set_align, set_size, set_position, set_setting_from_string, set_line, to_32}
use webvtt.Cue.Setters.Frame.{Keeps, Explained, set_setting_from_string-Explained}
use webvtt.Cue.Setters.Percent.{
  percent, set_size_sound, set_position_sound, set_position_complete, set_position_wraps,
}
use webvtt.CueText.Tokenizer.{Token, start_token, text_token, tokenizer}
use webvtt.CueText.Tokenizer.ClassTag.{IsPlain, tokenizer_class_annotation}
use webvtt.CueText.Tokenizer.Consume.{tokenizer_total}
use webvtt.CueText.Tokenizer.Escape.{escape_text, tokenizer-escape_text}
use webvtt.CueText.Tree.{Tree, bold, parse_cuetext}
use webvtt.CueText.Tree.Safe.{IsWellFormed, parse_cuetext_total}
use webvtt.Lexer.{newline, lex_newline, Lexer, Lexed, l_start, lex, whitespace, webvtt_tag}
use webvtt.Lexer.Newline.{lex_newline_takes}
use webvtt.Lexer.Resume.{IsBlank, GoesOn, lex_resume, lex_blanks_fill}
use webvtt.Lexer.Safe.{LexSafe, lex_safe}
use webvtt.Status.{success, bad_size, bad_position}
use webvtt.Text.{isdigit, isspace}
use webvtt.Timestamp.{parse_int, parse_timestamp, word_64, exceeds}
use webvtt.Timestamp.Digits.{IsDigits, value, parse_int_signed}
use webvtt.Timestamp.RoundTrip.{
  IsNumeral, total, long_text, short_text, parse_timestamp_hours, parse_timestamp_minutes,
}
use webvtt.Utf8.{utf8_to_utf16, utf8_chcount, skip_utf8}
use webvtt.Utf8.Encode.{encode, utf8_to_utf16-encode}
use webvtt.Utf8.Walk.{encode_all, utf8_chcount-encode_all, skip_utf8-encode_all, skip_utf8_stuck}

stamp_test :
    parse_timestamp (codes "01:02:03.004 x") ≡ record { valid = true; length = 12; time = 3723004 }
unfolding parse_timestamp
stamp_test = refl

short_stamp_test :
    parse_timestamp (codes "02:03.004") ≡ record { valid = true; length = 9; time = 123004 }
unfolding parse_timestamp
short_stamp_test = refl

carried_stamp_test :
    parse_timestamp (codes "00:99:03.004") ≡ record { valid = false; length = 12; time = 5943004 }
unfolding parse_timestamp
carried_stamp_test = refl

abbrev demo_text : Bytes
demo_text = codes "a<b>x&lt;</b>"

demo_tokens : tokenizer demo_text ≡ some (text_token (codes "a"), codes "<b>x&lt;</b>")
unfolding tokenizer
demo_tokens = refl

abbrev node_kinds : Option Tree → ℕ
node_kinds none = 0
node_kinds (some t) = length t.nodes

demo_tree : node_kinds (parse_cuetext (λ _. bold) bold demo_text) ≡ 4
unfolding parse_cuetext
demo_tree = refl

abbrev fresh : Lexer
fresh = record { bytes = 0; line = 1; column = 1; tstate = l_start; token = [] }

abbrev tag_seen : Option Lexed → Bool
tag_seen none = false
tag_seen (some r) = elim (r.token) [ webvtt_tag ↦ true | _ ↦ false ]

tag_test : tag_seen (lex false (codes "WEBVTT ") fresh) ≡ true
unfolding lex
tag_test = refl

bom_test : tag_seen (lex false (0xEF ∷ 0xBB ∷ 0xBF ∷ codes "WEBVTT") fresh) ≡ true
unfolding lex
bom_test = refl

parse_cuetext_total_example :
    (t : Tree) × (parse_cuetext (λ _. bold) bold demo_text ≡ some t) × IsWellFormed t
parse_cuetext_total_example = parse_cuetext_total (λ _. bold) bold demo_text

filled : (xs : Bytes) → 0 < length xs → xs ≢ []
filled [] p e = absurd (omega arith)
filled (x ∷ xs) p e = absurd (omega (arith, ap (λ l. length l) e))

one : IsNumeral (codes "01")
unfolding isdigit
one = record {
  digits = (refl, (refl, tt));
  nonempty = filled (codes "01") (omega arith);
  small = omega arith;
}

four : IsNumeral (codes "004")
unfolding isdigit
four = record {
  digits = (refl, (refl, (refl, tt)));
  nonempty = filled (codes "004") (omega arith);
  small = omega arith;
}

tokenizer-escape_text_example :
    tokenizer (escape_text (codes "a<b&c") ++ codes "<i>")
    ≡ some (text_token (codes "a<b&c"), codes "<i>")
tokenizer-escape_text_example =
    tokenizer-escape_text (codes "a<b&c") (codes "<i>") (filled (codes "a<b&c") (omega arith))
      (inr (codes "i>", refl))

abbrev stamp_text : Bytes
stamp_text = long_text (codes "01") (codes "01") (codes "01") (codes "004") (codes " -->")

parse_timestamp_hours_example :
    ((parse_timestamp stamp_text).time ≡ total 1 1 1 4 % word_64)
    × ((parse_timestamp stamp_text).length ≡ 12)
    × ((parse_timestamp stamp_text).valid ≡ true)
parse_timestamp_hours_example =
    parse_timestamp_hours (codes "01") (codes "01") (codes "004") (codes " -->") one one four
      (unfold isdigit in refl) (codes "01") one

abbrev minutes_text : Bytes
minutes_text = short_text (codes "01") (codes "01") (codes "004") (codes " -->")

parse_timestamp_minutes_example :
    ((parse_timestamp minutes_text).time ≡ total 0 1 1 4 % word_64)
    × ((parse_timestamp minutes_text).length ≡ 9)
    × ((parse_timestamp minutes_text).valid ≡ true)
parse_timestamp_minutes_example =
    parse_timestamp_minutes (codes "01") (codes "01") (codes "004") (codes " -->") one one four
      (unfold isdigit in refl)

parse_int_signed_example :
    parse_int (codes "-01%") ≡ record { number = 2 ^ 64 - 1; digits = 2; rest = codes "%" }
parse_int_signed_example =
    parse_int_signed (codes "01") (codes "%") one.digits one.nonempty (unfold isdigit in refl)

lex_resume_example :
    GoesOn true (codes "VTT") (lex true (codes "WEBVTT") fresh) (lex false (codes "WEB") fresh)
lex_resume_example = lex_resume true (codes "WEB") (codes "VTT") fresh refl

lex_safe_example : LexSafe (lex true (codes "WEB") fresh)
lex_safe_example = lex_safe true (codes "WEB") fresh refl

utf8_to_utf16-encode_example :
    utf8_to_utf16 (encode 0x1F600 ++ codes "!") ≡ record { unit = 0xDE00; high_surrogate = 0xD83D }
utf8_to_utf16-encode_example = utf8_to_utf16-encode 0x1F600 (codes "!") (omega arith)

utf8_chcount-encode_all_example : utf8_chcount (encode_all (0x41 ∷ 0x20AC ∷ [])) ≡ 2
utf8_chcount-encode_all_example =
    utf8_chcount-encode_all (0x41 ∷ 0x20AC ∷ [])
      ((omega arith, omega arith), ((omega arith, omega arith), tt))

skip_utf8-encode_all_example :
    skip_utf8 3 2 (encode_all (0x41 ∷ 0x20AC ∷ []) ++ codes "z") ≡ some (true, codes "z")
skip_utf8-encode_all_example =
    skip_utf8-encode_all (0x41 ∷ 0x20AC ∷ []) (codes "z") 3
      ((omega arith, omega arith), ((omega arith, omega arith), tt)) (omega arith)

skip_utf8_stuck_example : skip_utf8 1000 1 (0xFF ∷ codes "ab") ≡ none
skip_utf8_stuck_example =
    skip_utf8_stuck 1000 0 0xFF (codes "ab") (omega arith) (inr (inr (inl (omega arith))))

tokenizer_total_example :
    (token : Token) × (rest : Bytes) × (tokenizer (codes "<b>x") ≡ some (token, rest))
    × (length rest ≤ 3)
tokenizer_total_example = tokenizer_total b'<' (codes "b>x")

loud-IsPlain : All IsPlain (codes "loud")
unfolding isspace
loud-IsPlain = ground arith

tokenizer_class_annotation_example :
    tokenizer (codes "<v.loud Esme>")
    ≡ some (start_token (codes "v") (codes "loud" ∷ []) [], codes " Esme>")
tokenizer_class_annotation_example =
    tokenizer_class_annotation b'v' b'l' b' ' [] (codes "oud") (codes "Esme>")
      (unfold isspace in (refl, refl, refl)) (unfold isdigit in refl) refl tt loud-IsPlain
      (unfold isspace in refl)

blanks : ℕ → Bytes
blanks zero = []
blanks (suc n) = b' ' ∷ blanks n

blanks-IsBlank : (n : ℕ) → All IsBlank (blanks n)
unfolding blanks
blanks-IsBlank zero = tt
blanks-IsBlank (suc n) = (inl refl, blanks-IsBlank n)

length-blanks : (n : ℕ) → length (blanks n) ≡ n
unfolding blanks
length-blanks zero = refl
length-blanks (suc n) = omega (arith, length-blanks n)

lex_blanks_fill_example :
    (r : Lexed) × (lex false (blanks 255 ++ codes "x") fresh ≡ some r)
    × (r.token ≡ whitespace)
    × (r.rest ≡ codes "x")
    × (lex false (codes " ") r.lexer ≡ none)
lex_blanks_fill_example =
    lex_blanks_fill false false (blanks 255) (codes "x") fresh b' ' [] (blanks-IsBlank 255)
      (length-blanks 255) refl refl

lex_newline_takes_example :
    (r : Lexed) × (lex_newline false (codes "\r\n" ++ codes "x") fresh ≡ some (r, false))
    × (r.token ≡ newline)
    × (r.rest ≡ codes "x")
    × (r.lexer.tstate ≡ l_start)
lex_newline_takes_example =
    lex_newline_takes false (codes "\r\n") (codes "x") fresh (inr (inl refl)) refl refl
