-- ===== src/Parser/Body/Chunk.antt =====
-- `webvtt_parse_chunk` (src/libwebvtt/parser.c) behind the header of a file.
use webvtt.Base.{ℕ, ◌*◌, ◌≤◌, ◌<◌, ◌≡◌, refl, ◌⊎◌, Bool, true, false, Bytes, length}
use webvtt.Parser.{Parser, Run}
use webvtt.Parser.Body.{Ends, stack_at, Phase, in_text, TextMode, Shape}
use webvtt.Parser.Body.Buffer.{Kept}
use webvtt.Parser.Body.Payload.{TextFrames}
use webvtt.Parser.Stack.{Frame}
use webvtt.Status.{Status, success, failed}

-- The chunk ended in the text of a cue, with what it left in the buffer of lines.
abbrev pub Waits : Bool → Parser → Type 0
Waits finish p =
    Kept p × TextMode finish p × ((g : ℕ → Frame) × (p.stack ≡ stack_at g 1) × TextFrames g)

abbrev pub ChunkOk : Bool → Status × Parser → Type 0
ChunkOk finish (status, p) =
    ((failed status ≡ true) × (p.stack.top ≤ 2))
    ⊎ ((status ≡ success) × (((phase : Phase) × Shape finish phase p) ⊎ Waits finish p))

status_of : (status : Status) → failed status ≡ false → status ≡ success
status_of success e = refl
status_of _ e = absurd (cc e)

-- The fuel that is enough from a phase on.
abbrev Enough : Phase → Bytes → ℕ → Type 0
Enough in_text rest fuel = (0 < fuel) × (2 * length rest ≤ fuel)
Enough _ rest fuel = 2 * length rest < fuel

-- The rest of the loop, in any phase.
abbrev GoesOn : Bool → ℕ → (Parser → Bytes → Run (Status × Parser)) → Type 0
GoesOn finish fuel more =
    (phase : Phase) (p : Parser) (rest : Bytes)
    → Shape finish phase p
    → Enough phase rest fuel
    → Ends (ChunkOk finish) (more p rest)
