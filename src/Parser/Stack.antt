-- ===== src/Parser/Stack.antt =====
-- src/libwebvtt/parser.c: the stack of parse states, `do_push`, `do_pop` and their macros.
use webvtt.Base.{ℕ, ◌+◌, ◌-◌, ◌*◌, Option, none, some, ltb, leb, ◌==◌, if◌then◌else◌}
use webvtt.Cue.{Cue}
use webvtt.Lexer.{LexToken, bom}
use webvtt.StringData.{StringData}

-- `webvtt_parse_state`; `t_initial` is 0.
pub data ParseState : Type 0 where
  t_initial t_tag t_tagcomment t_eol t_body t_cueread t_cue t_cueid t_cueparams t_cuetext :
      ParseState
  t_timestamp t_comment t_from t_sep_left t_sep t_sep_right t_until t_precuesetting : ParseState
  t_cuesetting t_cuesetting_delimiter t_cuesetting_value t_skip_setting : ParseState

-- `webvtt_state_value_type`.
pub data ValueType : Type 0 where
  v_none v_pointer v_integer v_cue v_text v_lnode v_inode v_token : ValueType

-- The union `v`: zero, a cue, a string's data, or a number.
pub data Value : Type 0 where
  null : Value
  cue_value : Cue → Value
  text_value : StringData → Value
  number : ℕ → Value

-- `webvtt_state`.
pub record Frame : Type 0 where
  pub state : ParseState
  pub flags : ℕ
  pub token : LexToken
  pub type : ValueType
  pub back : ℕ
  pub line : ℕ
  pub column : ℕ
  pub v : Value

-- A frame of zeros. A token of 0 is `BOM`; it is never read.
abbrev pub blank : Frame
blank = record {
  state = t_initial;
  flags = 0;
  token = bom;
  type = v_none;
  back = 0;
  line = 0;
  column = 0;
  v = null;
}

-- `stack`, `top` as an index, and `stack_alloc`; `capacity` is the number of frames that the array
-- really has.
pub record StateStack : Type 0 where
  pub frames : ℕ → Frame
  pub top : ℕ
  pub stack_alloc : ℕ
  pub capacity : ℕ

abbrev pub first_stack : StateStack
first_stack = record { frames = λ i. blank; top = 0; stack_alloc = 0x100; capacity = 0x100 }

abbrev pub set_frame : (ℕ → Frame) → ℕ → Frame → ℕ → Frame
set_frame frames i f j = if j == i then f else frames j

-- The new array is twice as large as `stack_alloc` says, which stays as it is.
grow_stack : StateStack → StateStack
grow_stack s =
    if leb s.stack_alloc (s.top + 1)
    then record s {
      frames = λ i. if ltb i s.stack_alloc then s.frames i else blank;
      capacity = 2 * s.stack_alloc;
    }
    else s

-- A frame written outside the array is `none`.
unfoldable pub do_push : StateStack → Frame → Option StateStack
unfolding grow_stack
do_push s f =
    let t = grow_stack s in
    if ltb (t.top + 1) t.capacity
    then some (record t { frames = set_frame t.frames (t.top + 1) f; top = t.top + 1 })
    else none

-- `FRAME( 0 )`, `FRAME( 1 )` and `FRAMEUP( 1 )`.
abbrev pub top_frame : StateStack → Frame
top_frame s = s.frames s.top

abbrev pub frame_below : StateStack → Frame
frame_below s = s.frames (s.top - 1)

abbrev pub frame_up : StateStack → Frame
frame_up s = s.frames (s.top + 1)

abbrev pub set_top : StateStack → Frame → StateStack
set_top s f = record s { frames = set_frame s.frames s.top f }

abbrev pub set_up : StateStack → Frame → StateStack
set_up s f = record s { frames = set_frame s.frames (s.top + 1) f }

-- `do_pop`, without `popped`.
abbrev pub do_pop : StateStack → StateStack
do_pop s =
    let t = record s { top = s.top - (top_frame s).back } in
    set_top t (record (top_frame t) { back = 0 })

-- `POP()`, without `popped`.
abbrev pub pop : StateStack → StateStack
pop s = record s { top = s.top - 1 }
