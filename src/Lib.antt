-- ===== src/Lib.antt =====
-- A verification of libwebvtt, the C library that reads WebVTT captions.
--
-- The program. A caller feeds chunks of bytes to a parser (libwebvtt/parser.c), which takes tokens
-- from a lexer (lexer.c), reads timestamps, collects the settings and the text of each cue (cue.c),
-- and turns a cue's text into a tree of nodes (cuetext.c, node.c). All of it stands on routines for
-- strings and UTF-8 (string.c) and on the status and error codes (util.h, error.h, error.c). The
-- sources are in src/libwebvtt and include/webvtt.
--
-- The files, by what they model:
--   Text        string_internal.h, string.c: webvtt_isalpha, webvtt_isdigit, webvtt_isalphanum,
--               webvtt_isspace, webvtt_string_collect_word, webvtt_string_skip_whitespace,
--               webvtt_string_is_equal
--   Utf8        string.c: webvtt_next_utf8, webvtt_skip_utf8, webvtt_utf8_to_utf16,
--               webvtt_utf8_chcount, webvtt_utf8_length
--   Timestamp   parser.c: webvtt_parse_int, webvtt_parse_timestamp
--   Timings     parser.c: webvtt_collect_timestamp, webvtt_collect_timings_and_settings
--   Status      util.h, error.h, error.c: webvtt_status, webvtt_error, webvtt_error_for_status,
--               webvtt_strerror
--   Cue         cue.h, cue_internal.h, cue.c: webvtt_cue, webvtt_create_cue, webvtt_validate_cue,
--               cue_is_incomplete; Cue/Setters the setters, webvtt_cue_set_setting and
--               webvtt_cue_set_setting_from_string; Cue/Apply webvtt_cue_validate_set_settings
--   CueText     cuetext.c: CueText/Tokenizer webvtt_cuetext_tokenizer and the routine of each of its
--               states; CueText/Tree webvtt_parse_cuetext, with webvtt_attach_node and the routines
--               of node.c that create nodes
--   Lexer       lexer.c, parser_internal.h: webvtt_lex, webvtt_lex_newline; Lexer/Word webvtt_lex_word
--   StringData  string.c: the storage of one string: webvtt_init_string, webvtt_create_string,
--               webvtt_create_string_with_text,
--               webvtt_string_detach, grow, webvtt_string_putc, webvtt_string_append,
--               webvtt_string_getline; StringData/Replace memmem, webvtt_string_replace and
--               webvtt_string_replace_all
--   StringList  string.c, node.c: webvtt_stringlist_push, webvtt_stringlist_pop, and the array of
--               children in webvtt_attach_node
--   Parser      parser.c, parser_internal.h: webvtt_create_parser; Parser/Stack do_push and do_pop;
--               Parser/CueLine webvtt_proc_cueline; Parser/Webvtt parse_webvtt; Parser/Payload
--               webvtt_read_cuetext and webvtt_proc_cuetext; Parser/Chunk webvtt_parse_chunk,
--               webvtt_finish_parsing and cleanup_stack. Parser/Body has what holds of the parser
--               behind the header of a file, Parser/Comment where a comment in the header leads;
--               Parser/TokenList token_in_list and find_token
--   Memory      util.h, node.h, string.c, node.c, cue.c, cuetext.c: the objects that count their
--               references, in one memory. Memory/Release the routines that release strings, lists,
--               nodes and cues; Memory/Handles those that create, copy, detach and fill them;
--               Memory/Token the tokens of a cue text; Memory/Program a program that uses all of
--               these, with what it can reach; Memory/Sums counts against pointers;
--               Memory/Allocator alloc.c
--   Base        numbers, lists and Booleans that all files share
--   Tests       runs on small texts, and the theorems at concrete inputs
-- A definition has the name of its function without the prefix `webvtt_`. A file with a large
-- function has a definition for each of its parts, in the order of the source.
--
-- How the code is read.
--   * A C string is the list of its bytes before the NUL, and a pointer into it is the text from
--     there on; reading at the end of a text gives 0, as `peek` does.
--   * Pointers that a caller must give are there, so the guards against null pointers cannot fire.
--     Memory does not run out.
--   * Signed 64-bit integers are bit patterns below 2 ^ 64 and wrap around, where C leaves overflow
--     undefined. Counters of lines, columns and bytes do not overflow.
--   * A local variable that may be read before it is set (`kind` in cuetext.c) is an argument of the
--     model, and the theorems hold for every value of it.
--   * A loop without a structural measure takes fuel: the tokenizer the length of the text and 2, the
--     parser of cue text its length and 1, the walk over settings its length and 1, the count of
--     characters its length, the loops of `grow` 13 and 20 rounds on 32 bits, the replacement of
--     all occurrences and `webvtt_lex_word` the length of the text and 1, `parse_webvtt` six times the
--     length of the chunk and 6, `webvtt_read_cuetext` and `webvtt_parse_chunk` twice the length and
--     2, which leaves a round for each byte and the states between two bytes. `none` says that the
--     fuel ran out, or that memory would be written or read out of bounds. `webvtt_skip_utf8` has no
--     such bound; its fuel is an argument.
--   * The lexer's array of 256 bytes is the list of the bytes that are in use. A write that would not
--     fit is `none`.
--   * The cue text and settings files take strings as byte lists; StringData shows that the operations
--     they use on strings keep to that view and to the memory of the string.
--   * The caller's error function is there. It is an argument, `heed`, that tells for each report
--     whether the parser is to go on; where its answer is not looked at it is left out.
--   * `sizeof( webvtt_string_data )` is an argument of the string routines, `header`. In the parser it
--     is 20 or 32, by the data model of the platform, which is part of `Host`. Pointers in arrays are of
--     8 bytes. Sizes of blocks are 32-bit numbers, as webvtt_alloc takes them.
--   * The parser is a record that is passed from routine to routine. A frame of its stack holds its
--     cue or its string as a value; the functions `read` and `error` are lists of what they were
--     called with. A run is done, or is a fault (a read or write out of bounds, or of a union member
--     that was not written), or has no fuel left, or is `too_long`: it calls a string routine for more
--     than 2 ^ 31 bytes, and is not followed from there. Below that size a string routine without a
--     result is a fault.
--   * The memory is a list of cells. A block that is freed leaves an empty cell whose address is not
--     given out again, so a use of a stale pointer is a fault; so are a count that falls below zero
--     and one that overflows an `int`. The arrays of a list and of a node stand with it. A node with the data
--     of an inner node has an inner kind, as the callers of webvtt_create_internal_node give it. A pointer
--     has the kind of object that its type gives it. A slot is set to null before the object that it
--     led to is released; for lists and nodes the source does so afterwards, and no routine reads the
--     slot in between. The releases take fuel for their depth, more than the sum of all counts.
--   * The files on strings, cues, cue text and the parser take their objects as values; what their
--     routines do to the counts is in Memory.
--
-- Not modelled: failing allocations and what the code does then; the stack of the parser and the
-- calls of its routines on counted objects, whose cues and strings are values there;
-- webvtt_delete_parser, which is cleanup_stack and a release; the command line tool and the C++
-- bindings, which hold no logic of the parser, and the tests.
pub mod Base
pub mod Text
pub mod Timestamp
pub mod Timings
pub mod Status
pub mod Cue
pub mod Utf8
pub mod CueText
pub mod Lexer
pub mod StringData
pub mod StringList
pub mod Parser
pub mod Memory
pub mod Tests
