-- ===== src/CueText.antt =====
-- src/libwebvtt/cuetext.c: the parser of cue text. `Tokenizer` cuts the text into tokens, `Tree`
-- builds the nodes.
pub mod Tokenizer
pub mod Tree
