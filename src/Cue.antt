-- ===== src/Cue.antt =====
-- include/webvtt/cue.h, src/libwebvtt/cue_internal.h and cue.c: a cue, its creation and its
-- validation. The settings are in the children: `Setters` holds the setters, `Apply` the walk over a
-- settings line.
pub mod Setters
pub mod Apply
use webvtt.Base.{
  ℕ, ◌^◌, ◌-◌, Bool, true, false, not, ◌&&◌, ◌||◌, [], Bytes, leb, ◌==◌, if◌then◌else◌,
}

pub data VerticalType : Type 0 where
  horizontal vertical_lr vertical_rl : VerticalType

pub data AlignType : Type 0 where
  start middle end left right : AlignType

-- The bits of `flags`.
pub record Flags : Type 0 where
  pub have_vertical : Bool
  pub have_size : Bool
  pub have_position : Bool
  pub have_line : Bool
  pub have_align : Bool
  pub have_cueparams : Bool
  pub have_id : Bool

-- `webvtt_cue_settings`. `line` is the bit pattern of a 32-bit integer.
pub record CueSettings : Type 0 where
  pub vertical : VerticalType
  pub line : ℕ
  pub position : ℕ
  pub size : ℕ
  pub align : AlignType

-- `webvtt_cue`, without its reference count and its parsed text.
pub record Cue : Type 0 where
  pub flags : Flags
  pub from : ℕ
  pub until : ℕ
  pub settings : CueSettings
  pub snap_to_lines : Bool
  pub id : Bytes
  pub body : Bytes

abbrev pub auto : ℕ
auto = 0xFFFFFFFF

-- What `webvtt_alloc0` leaves of the flags: nothing is set.
abbrev pub no_flags : Flags
no_flags = record {
  have_vertical = false;
  have_size = false;
  have_position = false;
  have_line = false;
  have_align = false;
  have_cueparams = false;
  have_id = false;
}

abbrev pub create_cue : Cue
create_cue = record {
  flags = no_flags;
  from = 2 ^ 64 - 1;
  until = 2 ^ 64 - 1;
  settings = record {
    vertical = horizontal;
    line = auto;
    position = 50;
    size = 100;
    align = middle;
  };
  snap_to_lines = true;
  id = [];
  body = [];
}

unfoldable pub bad_timestamp : ℕ → Bool
bad_timestamp t = t == 2 ^ 64 - 1

unfoldable pub validate_cue : Cue → Bool
unfolding bad_timestamp
validate_cue cue =
    if bad_timestamp cue.from || bad_timestamp cue.until
    then false
    else not (leb cue.until cue.from)

-- For a cue that is there: `( flags & CUE_HEADER_MASK ) == CUE_HAVE_ID`.
unfoldable pub cue_is_incomplete : Cue → Bool
cue_is_incomplete cue = cue.flags.have_id && not cue.flags.have_cueparams
