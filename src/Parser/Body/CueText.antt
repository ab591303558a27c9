-- ===== src/Parser/Body/CueText.antt =====
-- `webvtt_proc_cuetext` (src/libwebvtt/parser.c) ends, and hands over to `parse_webvtt` or waits.
use webvtt.Base.{ℕ, ◌≡◌, ◌⊎◌, Bool, true, false, some, []}
use webvtt.Cue.{Cue}
use webvtt.Parser.{Parser}
use webvtt.Parser.Body.{stack_at, Phase, of_webvtt, TextMode, Shape}
use webvtt.Parser.Body.Buffer.{Unbegun, Returned, IsMarked, PartBuffer, Kept}
use webvtt.Parser.Body.Payload.{TextFrames, NextFrames, Released, Less}
use webvtt.Parser.Stack.{Frame, v_cue, set_frame}
use webvtt.Parser.Webvtt.{Exit}
use webvtt.Status.{success, unfinished}
use webvtt.StringData.{StringData}

-- The flag that a call begins with.
Entry : Parser → Bool → Type 0
Entry p true = Returned p.lexer × ((str : StringData) × (p.line_buffer ≡ some str) × IsMarked str)
Entry p false = PartBuffer p.line_buffer × (Unbegun p.lexer ⊎ Returned p.lexer)

-- What reading the text leaves: it is over, or the chunk is, before the last one.
abbrev ReadTextOk : Bool → ℕ → Exit → Type 0
ReadTextOk finish n (status, p, rest) =
    (g : ℕ → Frame) × (p.stack ≡ stack_at g 1)
    × TextMode finish p
    × Less n rest
    × (((status ≡ success) × Released p × (TextFrames g ⊎ NextFrames g p.popped))
        ⊎ ((status ≡ unfinished) × TextFrames g × (rest ≡ []) × (finish ≡ false) × Kept p))

text_frame : (ℕ → Frame) → ℕ → Frame
text_frame f = set_frame f 1 (record (f 1) { type = v_cue })

-- The text is over and the parser is one of `parse_webvtt` again, or the chunk is over and the text goes
-- on.
abbrev pub TextDone : Bool → ℕ → Exit → Type 0
TextDone finish n (status, p, rest) =
    Less n rest
    × (((status ≡ success) × ((phase : Phase) × (of_webvtt phase ≡ true) × Shape finish phase p))
        ⊎ ((status ≡ unfinished)
            × (rest ≡ [])
            × (finish ≡ false)
            × Kept p
            × TextMode finish p
            × ((g : ℕ → Frame) × (p.stack ≡ stack_at g 1) × TextFrames g)))
