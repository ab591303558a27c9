-- ===== src/Memory/Token.antt =====
-- src/libwebvtt/cuetext.c: the tokens of a cue's text as objects: how they are created and deleted. A
-- token is not counted and one variable holds it, so it is a value here; its strings and its list of
-- classes are counted.
pub mod RoundTrip
use webvtt.Base.{ℕ, List, [], ◌∷◌}
use webvtt.Memory.{Pointer, Memory, string, stringlist, null, at}
use webvtt.Memory.Handles.{copy, copy_string, copied}
use webvtt.Memory.Release.{release}
use webvtt.Parser.{Run, done, ◌>>=◌}

-- `webvtt_cuetext_token`, a constructor for each `token_type`: the name of the tag, the classes and the
-- annotation; the name of the tag; the text; the time.
pub data TokenObject : Type 0 where
  start_token : Pointer → Pointer → Pointer → TokenObject
  end_token : Pointer → TokenObject
  text_token : Pointer → TokenObject
  time_stamp_token : ℕ → TokenObject

-- Where the right list is missing, the left variable keeps what it holds.
abbrev pub copied_list : Pointer → Pointer → Pointer
copied_list left null = left
copied_list left (at k a) = at k a

-- `left` is what the variable `sd` holds before it is set.
unfoldable pub create_start_token :
    Pointer → Pointer → Pointer → Pointer → Memory → Run (TokenObject × Memory)
unfolding copy copy_string
create_start_token left tag_name css_classes annotation m = do
  m1 ← copy_string tag_name m
  m2 ← copy css_classes m1
  m3 ← copy_string annotation m2
  done (start_token (copied tag_name) (copied_list left css_classes) (copied annotation), m3)

unfoldable pub create_end_token : Pointer → Memory → Run (TokenObject × Memory)
unfolding copy_string
create_end_token tag_name m = do m' ← copy_string tag_name m; done (end_token (copied tag_name), m')

unfoldable pub create_text_token : Pointer → Memory → Run (TokenObject × Memory)
unfolding copy_string
create_text_token text m = do m' ← copy_string text m; done (text_token (copied text), m')

abbrev pub create_timestamp_token : ℕ → Memory → Run (TokenObject × Memory)
create_timestamp_token time_stamp m = done (time_stamp_token time_stamp, m)

unfoldable pub delete_token : ℕ → TokenObject → Memory → Run Memory
delete_token fuel (start_token tag_name css_classes annotations) m = do
  m1 ← release fuel css_classes m
  m2 ← release fuel annotations m1
  release fuel tag_name m2
delete_token fuel (end_token tag_name) m = release fuel tag_name m
delete_token fuel (text_token text) m = release fuel text m
delete_token fuel (time_stamp_token _) m = done m

-- What a token is created from, by the one of the four routines that is for it.
pub data Request : Type 0 where
  start : ℕ → ℕ → ℕ → Request
  end : ℕ → Request
  text : ℕ → Request
  time_stamp : ℕ → Request

unfoldable pub create_token : Pointer → Request → Memory → Run (TokenObject × Memory)
unfolding create_start_token create_end_token create_text_token
create_token left (start tag css annotation) m =
    create_start_token left (at string tag) (at stringlist css) (at string annotation) m
create_token left (end tag) m = create_end_token (at string tag) m
create_token left (text s) m = create_text_token (at string s) m
create_token left (time_stamp t) m = create_timestamp_token t m

-- The counted pointers of a token.
abbrev pub members : TokenObject → List Pointer
members (start_token tag_name css_classes annotations) = annotations ∷ css_classes ∷ tag_name ∷ []
members (end_token tag_name) = tag_name ∷ []
members (text_token words) = words ∷ []
members (time_stamp_token _) = []
