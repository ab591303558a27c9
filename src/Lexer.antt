-- ===== src/Lexer.antt =====
-- src/libwebvtt/lexer.c: `webvtt_lex` and `webvtt_lex_newline`, over the fields of the parser that they
-- use (src/libwebvtt/parser_internal.h). The buffer is the text from `*pos` up to `length`.
-- `token` is the first `token_pos` bytes of the array of 256 bytes; a byte is written there with a
-- NUL behind it, so with 255 bytes in it the next write is out of bounds: `none`, a fault.
pub mod Safe
pub mod Resume
pub mod Newline
pub mod Progress
pub mod Word
use webvtt.Base.{
  ℕ, ◌+◌, ◌-◌, Bool, true, false, ◌&&◌, ◌||◌, Option, none, some, [], ◌∷◌, ◌++◌, Bytes, leb, ltb,
  ◌==◌, if◌then◌else◌, length, take,
}

-- `webvtt_token`.
pub data LexToken : Type 0 where
  bad_token unfinished_token bom webvtt_tag newline whitespace : LexToken

-- `webvtt_lexer_state`.
pub data LexState : Type 0 where
  l_start l_bom0 l_bom1 l_webvtt0 l_webvtt1 l_webvtt2 l_webvtt3 l_webvtt4 l_newline0 : LexState
  l_whitespace : LexState

pub record Lexer : Type 0 where
  pub bytes : ℕ
  pub line : ℕ
  pub column : ℕ
  pub tstate : LexState
  pub token : Bytes

-- The token, the fields, and the text from `*pos` on.
pub record Lexed : Type 0 where
  pub token : LexToken
  pub lexer : Lexer
  pub rest : Bytes

-- A token that waits for the next chunk.
abbrev pub is_unfinished : LexToken → Bool
is_unfinished unfinished_token = true
is_unfinished _ = false

-- What one byte leads to: the next round, or a token, the byte then taken or given back.
pub data Step : Type 0 where
  more : Lexer → Step
  taken : LexToken → Lexer → Step
  given_back : LexToken → Lexer → Step

-- The byte is written to the token, and the counters move.
abbrev pub push : Lexer → ℕ → Lexer
push l c = record l { token = l.token ++ c ∷ []; column = l.column + 1; bytes = l.bytes + 1 }

-- `BACKUP`, without `*pos`.
abbrev pub backup : Lexer → Lexer
backup l = record l {
  column = l.column - 1;
  token = take (length l.token - 1) l.token;
  tstate = l_start;
}

-- `RESET`.
abbrev pub reset : Lexer → Lexer
reset l = record l { column = 1; bytes = 0; token = []; tstate = l_start }

-- `SET_NEWLINE`, without the return.
abbrev pub set_newline : Lexer → Lexer
set_newline l = record l { line = l.line + 1; column = 1; tstate = l_start }

abbrev at_state : Lexer → LexState → Lexer
at_state l s = record l { tstate = s }

-- A state that one byte leads out of, or else nothing.
expect : Lexer → ℕ → ℕ → LexState → Step
expect l c wanted next =
    if c == wanted then more (at_state l next) else given_back bad_token (backup l)

-- The switch on `tstate`, with the byte already pushed.
pub lex_byte : LexState → Lexer → ℕ → Step
unfolding expect
lex_byte l_start l c =
    if c == b'W'
    then more (at_state l l_webvtt0)
    else if c == 0xEF
    then more (at_state l l_bom0)
    else if c == b'\n'
    then taken newline (set_newline l)
    else if c == b'\r'
    then more (at_state l l_newline0)
    else if c == b' ' || c == b'\t'
    then more (at_state l l_whitespace)
    else given_back bad_token (backup l)
lex_byte l_bom0 l c = expect l c 0xBB l_bom1
lex_byte l_bom1 l c =
    if c == 0xBF
    then (if l.bytes == 3 then more (reset l) else taken bom (at_state l l_start))
    else given_back bad_token (backup l)
lex_byte l_webvtt0 l c = expect l c b'E' l_webvtt1
lex_byte l_webvtt1 l c = expect l c b'B' l_webvtt2
lex_byte l_webvtt2 l c = expect l c b'V' l_webvtt3
lex_byte l_webvtt3 l c = expect l c b'T' l_webvtt4
lex_byte l_webvtt4 l c =
    if c == b'T' then taken webvtt_tag (at_state l l_start) else given_back bad_token (backup l)
lex_byte l_newline0 l c =
    if c == b'\n'
    then taken newline (set_newline l)
    else given_back newline (set_newline (backup l))
lex_byte l_whitespace l c =
    if c == b' ' || c == b'\t'
    then (if leb 255 (length l.token) then taken whitespace (at_state l l_start) else more l)
    else given_back whitespace (backup l)

-- The end of the buffer in the middle of a token, in the last chunk.
end_in : LexState → Lexer → LexToken × Lexer
end_in l_whitespace l = (whitespace, at_state l l_start)
end_in _ l = (bad_token, reset l)

lex_end : Bool → Lexer → Lexed
unfolding end_in
lex_end finish l =
    if finish && ltb 0 (length l.token)
    then record { token = (end_in l.tstate l).0; lexer = (end_in l.tstate l).1; rest = [] }
    else record { token = unfinished_token; lexer = l; rest = [] }

unfoldable pub lex : Bool → Bytes → Lexer → Option Lexed
unfolding lex_byte lex_end
lex finish [] l = some (lex_end finish l)
lex finish (c ∷ s) l =
    let next : Option Lexed = elim (lex_byte l.tstate (push l c) c) [
      | more l' ↦ lex finish s l'
      | taken t l' ↦ some (record { token = t; lexer = l'; rest = s })
      | given_back t l' ↦ some (record { token = t; lexer = l'; rest = c ∷ s })
    ] in
    if leb 255 (length l.token) then none else next

-- `webvtt_lex_newline` writes the byte and counts it, and leaves line and column alone. Its check that
-- the state is L_START or L_NEWLINE0, which is empty in a release build, is left out.
abbrev push_newline : Lexer → ℕ → Lexer
push_newline l c = record l { token = l.token ++ c ∷ []; bytes = l.bytes + 1 }

abbrev backup_newline : Lexer → Lexer
backup_newline l = record l { token = take (length l.token - 1) l.token; bytes = l.bytes - 1 }

newline_byte : LexState → Lexer → ℕ → Step
newline_byte l_start l c =
    if c == b'\n'
    then taken newline l
    else if c == b'\r'
    then more (at_state l l_newline0)
    else given_back bad_token (backup_newline l)
newline_byte l_newline0 l c =
    if c == b'\n'
    then taken newline (at_state l l_start)
    else given_back newline (at_state (backup_newline l) l_start)
newline_byte _ l c = given_back bad_token (backup_newline l)

is_newline0 : LexState → Bool
is_newline0 l_newline0 = true
is_newline0 _ = false

-- The result, and whether `*pos` is one byte before the text that is named: with no byte to read and
-- no carriage return before it, the source steps back.
newline_end : Bool → Lexer → Lexed × Bool
unfolding is_newline0
newline_end finish l =
    if finish
    then (record { token = newline; lexer = at_state l l_start; rest = [] }, false)
    else if is_newline0 l.tstate
    then (record { token = unfinished_token; lexer = l; rest = [] }, false)
    else (record { token = bad_token; lexer = l; rest = [] }, true)

unfoldable pub lex_newline : Bool → Bytes → Lexer → Option (Lexed × Bool)
unfolding newline_byte newline_end
lex_newline finish [] l = some (newline_end finish l)
lex_newline finish (c ∷ s) l =
    let next : Option (Lexed × Bool) = elim (newline_byte l.tstate (push_newline l c) c) [
      | more l' ↦ lex_newline finish s l'
      | taken t l' ↦ some (record { token = t; lexer = l'; rest = s }, false)
      | given_back t l' ↦ some (record { token = t; lexer = l'; rest = c ∷ s }, false)
    ] in
    if leb 255 (length l.token) then none else next
