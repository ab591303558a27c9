-- ===== src/Parser.antt =====
-- src/libwebvtt/parser.c and parser_internal.h: the state of a parser. The children hold its routines.
pub mod Stack
pub mod CueLine
pub mod Webvtt
pub mod Payload
pub mod Chunk
pub mod Body
pub mod Comment
pub mod TokenList
use webvtt.Base.{
  ℕ, ◌^◌, leb, if◌then◌else◌, Bool, true, false, Option, none, some, List, [], ◌∷◌, ◌++◌, Bytes,
}
use webvtt.Cue.{Cue}
use webvtt.Cue.Apply.{Report}
use webvtt.CueText.Tree.{NodeKind, Tree}
use webvtt.Lexer.{LexToken, Lexer, l_start}
use webvtt.Status.{Status, Error}
use webvtt.StringData.{StringData}
use webvtt.Parser.Stack.{StateStack, first_stack}

-- The sizes of the types of C.
pub data DataModel : Type 0 where
  ilp32 lp64 : DataModel

-- `sizeof( webvtt_string_data )`.
abbrev pub header_size : DataModel → ℕ
header_size ilp32 = 20
header_size lp64 = 32

-- What the parser does not choose: the data model, the error function's answers, and what the local
-- variables `kind` of the cue text parser hold before they are set.
pub record Host : Type 0 where
  pub model : DataModel
  pub heed : Report → Bool
  pub garbage : Bytes → NodeKind
  pub kind : NodeKind

abbrev pub header : Host → ℕ
header h = header_size h.model

-- `webvtt_parse_mode`.
pub data Mode : Type 0 where
  m_webvtt m_cuetext m_skip_cue : Mode

-- `webvtt_parser_t`; the lexer's fields are one record. `cues` and `reports` are what the functions
-- `read` and `error` have been called with, the cues with their trees.
pub record Parser : Type 0 where
  pub lexer : Lexer
  pub stack : StateStack
  pub popped : Bool
  pub mode : Mode
  pub finished : Bool
  pub cuetext_line : ℕ
  pub truncate : ℕ
  pub line_buffer : Option StringData
  pub cues : List (Cue × Tree)
  pub reports : List Report

-- A fault is a read or write out of bounds, of a member of a union that was not written, or the end of the
-- fuel of a string routine. `too_long` is a call of a string routine with sizes that its 32 bits may be
-- too few for; what the source does then is left out.
pub data Run {ℓ} (A : Type ℓ) : Type ℓ where
  done : A → Run A
  fault : Run A
  too_long : Run A
  out_of_fuel : Run A

infixl 5 ◌>>=◌
abbrev pub ◌>>=◌ {ℓ κ} : {A : Type ℓ} {B : Type κ} → Run A → (A → Run B) → Run B
done a >>= f = f a
fault >>= f = fault
too_long >>= f = too_long
out_of_fuel >>= f = out_of_fuel

-- A result that is none is a fault.
abbrev pub or_fault {ℓ} : {A : Type ℓ} → Option A → Run A
or_fault none = fault
or_fault (some a) = done a

-- The result of a string routine that works with `size` bytes: a size above 2 ^ 31 is too long, and below
-- it a result that is none is a fault.
abbrev pub or_too_long {ℓ} : {A : Type ℓ} → ℕ → Option A → Run A
or_too_long size o = if leb size (2 ^ 31) then or_fault o else too_long

abbrev pub or_out_of_fuel {ℓ} : {A : Type ℓ} → Option A → Run A
or_out_of_fuel none = out_of_fuel
or_out_of_fuel (some a) = done a

-- `webvtt_create_parser`.
abbrev pub create_parser : Parser
create_parser = record {
  lexer = record { bytes = 0; line = 1; column = 1; tstate = l_start; token = [] };
  stack = first_stack;
  popped = false;
  mode = m_webvtt;
  finished = false;
  cuetext_line = 0;
  truncate = 0;
  line_buffer = none;
  cues = [];
  reports = [];
}
