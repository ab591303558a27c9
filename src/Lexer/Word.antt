-- ===== src/Lexer/Word.antt =====
-- src/libwebvtt/lexer.c: `webvtt_lex_word`, which collects the bytes that begin no token.
use webvtt.Base.{ℕ, zero, suc, ◌+◌, Bool, true, false, Option, none, some, [], ◌∷◌, Bytes, length}
use webvtt.Lexer.{bad_token, Lexer, Lexed, lex}
use webvtt.StringData.{StringData, init_string, putc}

-- The string, the fields, and the text from `pos` on.
pub record Word : Type 0 where
  pub str : StringData
  pub lexer : Lexer
  pub rest : Bytes

-- Another token is given back, with the counters; the state and the bytes of the token stay.
abbrev given_up : Lexer → Lexer → Lexer
given_up before l = record l { bytes = before.bytes; line = before.line; column = before.column }

-- The byte at `pos` is taken; at the end of the buffer the source reads behind it: `none`.
word_byte : ℕ → Word → Lexed → Option Word
unfolding putc
word_byte header w r = elim r.rest [
  | [] ↦ none
  | c ∷ s ↦ elim (putc header w.str c) [
    | none ↦ none
    | some str ↦ some (record { str = str; lexer = r.lexer; rest = s })
  ]
]

-- The loop, with fuel; the first part of the result tells whether it goes on.
word_token : ℕ → Word → Lexed → Option (Bool × Word)
unfolding word_byte
word_token header w r = elim r.token [
  | bad_token ↦ elim (word_byte header w r) [ none ↦ none | some v ↦ some (true, v) ]
  | _ ↦ some (false, record w { lexer = given_up w.lexer r.lexer })
]

word_round : ℕ → Bool → Word → Option (Bool × Word)
unfolding word_token lex
word_round header finish w = elim (lex finish w.rest w.lexer) [
  | none ↦ none
  | some r ↦ word_token header w r
]

word_loop : ℕ → ℕ → Bool → Word → Option Word
unfolding word_round
word_loop zero header finish w = none
word_loop (suc fuel) header finish w = elim w.rest [
  | [] ↦ some w
  | c ∷ s ↦ elim (word_round header finish w) [
    | none ↦ none
    | some (on, v) ↦ elim on [ true ↦ word_loop fuel header finish v | false ↦ some v ]
  ]
]

unfoldable pub lex_word : ℕ → Bool → Bytes → Lexer → Option Word
unfolding word_loop
lex_word header finish s l =
    word_loop (length s + 1) header finish (record { str = init_string; lexer = l; rest = s })
