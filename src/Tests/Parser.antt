-- ===== src/Tests/Parser.antt =====
-- The parser: runs on small files.
use webvtt.Base.{
  Option, none, some, ℕ, ◌+◌, ◌*◌, ◌≡◌, refl, true, false, List, [], ◌∷◌, Bytes, codes,
  if◌then◌else◌,
}
use webvtt.Cue.{Cue, validate_cue}
use webvtt.Cue.Apply.{Report, validate_set_settings}
use webvtt.Timestamp.{parse_timestamp}
use webvtt.Timings.{collect_timestamp}
use webvtt.CueText.Tree.{NodeKind, ruby, Tree}
use webvtt.Parser.{Host, lp64, Parser, Run, done, ◌>>=◌, create_parser}
use webvtt.Lexer.Word.{Word, lex_word}
use webvtt.Lexer.{bad_token, newline}
use webvtt.Parser.Body.{Ends, in_eol}
use webvtt.Parser.Body.Loop.{ExitOk, parse_webvtt-Ends}
use webvtt.Parser.Comment.{bad, comment_then_malformed}
use webvtt.Parser.CueLine.{report_at, reported}
use webvtt.Parser.Stack.{top_frame}
use webvtt.Parser.Webvtt.{again, leave, on_tagcomment, on_state, parse_webvtt}
use webvtt.Parser.Chunk.{parse_chunk, finish_parsing}
use webvtt.Status.{
  Status, success, failed, parse_error, failed_assertion, unfinished, malformed_tag,
  expected_timestamp,
}

abbrev host : NodeKind → Host
host k = record { model = lp64; heed = λ r. true; garbage = λ b. k; kind = k }

abbrev Seen : Type 0
Seen = Status × List (ℕ × ℕ × Bytes × Bytes) × List Report

times : List (Cue × Tree) → List (ℕ × ℕ × Bytes × Bytes)
times [] = []
times ((c, t) ∷ cs) = (c.from, c.until, c.id, c.body) ∷ times cs

-- A file in chunks, and its end.
chunks : Host → List Bytes → Parser → Run (Status × Parser)
unfolding parse_chunk finish_parsing
chunks h [] p = finish_parsing h p
chunks h (b ∷ bs) p = do r ← parse_chunk h p b; if failed r.0 then done r else chunks h bs r.1

seen : Host → List Bytes → Run Seen
seen h bs = do r ← chunks h bs create_parser; done (r.0, times r.1.cues, r.1.reports)

abbrev h0 : Host
h0 = host ruby

-- Two cues in one chunk, the second without an end.
one_chunk :
    seen h0
      (codes "WEBVTT\n\nx\n00:01.000 --> 00:02.000\nab\ncd\n\n00:03.000 --> 00:04.000\nef" ∷ [])
    ≡ done
        (success, (1000, 2000, codes "x", codes "ab\ncd") ∷ (3000, 4000, [], codes "ef") ∷ [], [])
unfolding seen chunks times parse_chunk finish_parsing collect_timestamp parse_timestamp
    validate_set_settings validate_cue
one_chunk = refl

-- The first of them, cut in the middle of each kind of token.
many_chunks :
    seen h0 (
      codes "WEB"
      ∷ codes "VTT\r"
      ∷ codes "\n\nx\n00:01.000 --"
      ∷ codes "> 00:02.000\n"
      ∷ codes "ab\nc"
      ∷ codes "d\n"
      ∷ codes "\n"
      ∷ [])
    ≡ done (success, (1000, 2000, codes "x", codes "ab\ncd") ∷ [], [])
unfolding seen chunks times parse_chunk finish_parsing collect_timestamp parse_timestamp
    validate_set_settings validate_cue
many_chunks = refl

-- The times of a cue end the text of the one before.
no_blank_line :
    seen h0 (codes "WEBVTT\n\n00:01.000 --> 00:02.000\nab\n00:03.000 --> 00:04.000\nef\n\n" ∷ [])
    ≡ done (success, (1000, 2000, [], codes "ab") ∷ (3000, 4000, [], codes "ef") ∷ [], [])
unfolding seen chunks times parse_chunk finish_parsing collect_timestamp parse_timestamp
    validate_set_settings validate_cue
no_blank_line = refl

-- A comment behind the tag: the file is refused.
header_comment :
    seen h0 (codes "WEBVTT hi\n\nx\n00:01.000 --> 00:02.000\nab\n\n" ∷ [])
    ≡ done (parse_error, [], report_at malformed_tag 1 1 ∷ [])
unfolding seen chunks times parse_chunk finish_parsing collect_timestamp parse_timestamp
    validate_set_settings validate_cue
header_comment = refl

-- Text between the time and the separator: the next token fails an assertion.
bad_separator :
    seen h0 (codes "WEBVTT\n\n00:01.000 x --> 00:02.000\nab\n\n" ∷ [])
    ≡ done (failed_assertion, [], [])
unfolding seen chunks times parse_chunk finish_parsing collect_timestamp parse_timestamp
    validate_set_settings validate_cue
bad_separator = refl

-- The text of a cue that is skipped ends with the chunk: a failure.
skipped_cue :
    seen h0 (codes "WEBVTT\n\n00:01.000 --> \nab" ∷ codes "cd\n\n" ∷ [])
    ≡ done (unfinished, [], report_at expected_timestamp 3 15 ∷ [])
unfolding seen chunks times parse_chunk finish_parsing collect_timestamp parse_timestamp
    validate_set_settings validate_cue
skipped_cue = refl

-- The parser behind a chunk.
left_by : Run (Status × Parser) → Parser
left_by (done (status, p)) = p
left_by _ = create_parser

abbrev after : Bytes → Parser
after b = left_by (parse_chunk h0 create_parser b)

parse_webvtt-Ends_example :
    Ends
      (ExitOk false (4 * 3 + 4))
      (parse_webvtt h0 false (after (codes "WEBVTT\n")) (codes "x\na"))
unfolding left_by parse_chunk collect_timestamp parse_timestamp validate_set_settings validate_cue
parse_webvtt-Ends_example =
    parse_webvtt-Ends h0 in_eol (after (codes "WEBVTT\n")) (codes "x\na") refl (record {
      frames = (after (codes "WEBVTT\n")).stack.frames;
      stack = refl;
      holding = (refl, refl, refl, tt);
      lexing = refl;
      mode = (refl, refl, refl);
    })

-- The parser in the middle of a text, at a carriage return.
abbrev in_the_text : Parser
in_the_text = after (codes "WEBVTT\n\n00:01.000 --> 00:02.000\nab\ncd\r")

abbrev commented : Parser
commented = after (codes "WEBVTT hi")

comment_then_malformed_example :
    (q : Parser) × (p' : Parser) × (on_tagcomment newline 1 10 success commented (codes "x")
      ≡ done (again success q (codes "x")))
    × (on_state 2 h0
          (top_frame q.stack).state
          bad_token
          2
          1
          success
          (record q { lexer = commented.lexer })
          (codes "x")
        ≡ done (leave parse_error (reported malformed_tag 1 1 p') (codes "x")))
unfolding left_by parse_chunk collect_timestamp parse_timestamp validate_set_settings validate_cue
comment_then_malformed_example =
    comment_then_malformed h0 1 10 success commented (codes "x") commented.stack.frames bad_token 2
      1 success commented.lexer (codes "x") refl (refl, refl) bad

-- A word ends at white space.
text_of : Option Word → Bytes × Bytes
text_of none = ([], [])
text_of (some w) = (w.str.text, w.rest)

word_test :
    text_of (lex_word 24 false (codes "abc d") create_parser.lexer) ≡ (codes "abc", codes " d")
unfolding lex_word text_of
word_test = refl
