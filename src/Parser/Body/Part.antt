-- ===== src/Parser/Body/Part.antt =====
-- A part of a line of a cue's text is read (`webvtt_read_cuetext` in src/libwebvtt/parser.c).
use webvtt.Base.{
  ap, length-append, none, ◌^◌, ltb, leb, Option, ℕ, ◌+◌, ◌*◌, ◌≤◌, ◌<◌, ◌≡◌, refl, sym, ◌∙◌, ◌⊎◌,
  inl, inr, Bool, Bool-cases, true, false, some, [], ◌∷◌, ◌++◌, Bytes, arith, length,
}
use webvtt.Parser.{Host, header, Parser, done, or_fault}
use webvtt.Parser.Body.{Ends, Ends-bind, Ends-done, Ends-sized, header_positive, placed}
use webvtt.Parser.Body.Buffer.{IsPart, IsMarked, PartBuffer, IsOpen, marked_lem, part_lem}
use webvtt.Parser.Body.Line.{at_end, chunk_over, line_left}
use webvtt.Parser.Payload.{Reading, buffer_of, count_of, mark_line, read_part}
use webvtt.Parser.Stack.{Frame}
use webvtt.StringData.{too_long, split_line, StringData, putc, getline}
use webvtt.StringData.Lines.{IsEnd, split_line_lem, getline_rest, getline-IsSound}
use webvtt.StringData.Bounds.{IsSound, putc_total}
use webvtt.StringData.Replace.Nul.{substitute, string_replace_all-nul}

abbrev pub reading : Parser → (ℕ → Frame) → Bytes → Bool → Reading
reading p g rest flags = record {
  parser = placed p g 1;
  rest = rest;
  finished = false;
  flags = flags;
}

mark_line_ok : (h : Host) (str : StringData) → IsSound str → Ends IsMarked (mark_line h str)
unfolding mark_line
mark_line_ok h str sound = Ends-sized IsMarked _ (putc (header h) str b'\n') _ (λ small.
    let (q, e, text, sound', own) =
      putc_total (header h) (header_positive h) str b'\n' sound.fits (omega arith)
        (omega (arith, sound.fits)) in
    (
      q,
      e,
      elim (Bool-cases (leb (header h + (3 * length q.text + 3)) (2 ^ 31))) [
        | inl fits ↦
            let (t, e', text', sound'') =
              string_replace_all-nul (header h) (header_positive h) q sound' (ground arith) in
            let whole = text' ∙ ap (λ t. substitute t) text in
            rw (fits, e')
              (sound'', rw whole (marked_lem str.text).0, rw whole (marked_lem str.text).1)
        | inr large ↦ rw large tt
      ],
    ))

-- The buffer that a line is read to.
buffer_ok :
    (h : Host) (b : Option StringData)
    → PartBuffer b
    → (str : StringData) × (or_fault (buffer_of h b) ≡ done str) × IsSound str × IsOpen str
unfolding buffer_of
buffer_ok h (some str) part = (str, refl, part.0, inr part)
buffer_ok h none sound =
    let room : ltb (header h + 0x100) (2 ^ 32) ≡ true = ground arith in
    (
      record { alloc = 0x100; shared = false; terminated = true; text = [] },
      rw room refl,
      record { fits = omega arith; terminated = refl },
      inl (refl, refl),
    )

-- What was read is in the buffer; the chunk goes on with the end of the line, or it is over.
abbrev pub PartOk : Bool → Parser → (ℕ → Frame) → Bytes → Reading → Type 0
PartOk finish p f s r =
    (str : StringData) × (t : ℕ) × (rest : Bytes) × (flags : Bool) × (r
      ≡ reading (record p { line_buffer = some str; truncate = t }) f rest flags)
    × (length rest ≤ length s)
    × (((flags ≡ true)
          × IsMarked str
          × (((rest ≡ []) × (finish ≡ true)) ⊎ ((c : ℕ) × (u : Bytes) × (rest ≡ c ∷ u) × IsEnd c)))
        ⊎ ((flags ≡ false) × IsPart str × (rest ≡ []) × (finish ≡ false)))

-- The chunk ended in the line.
line-IsPart :
    (b q : StringData) (rest : Bytes) (n : ℕ)
    → IsOpen b
    → IsSound q
    → 0 < length rest
    → (split_line rest).1 ≡ []
    → (q.text ≡ b.text ++ (split_line rest).0) ⊎ ((q.text ≡ b.text) × (too_long (some n) b ≡ true))
    → IsPart q
line-IsPart b q rest n fresh sound some_left none_left either =
    let (parts, inner, end) = split_line_lem rest in
    let size : length (split_line rest).0 ≡ length rest = omega (
      arith,
      ap (λ t. length t) parts,
      length-append (split_line rest).0 (split_line rest).1,
      ap (λ t. length t) none_left,
    ) in
    let (filled, inside) =
      part_lem b q (split_line rest).0 n fresh inner (omega (arith, size)) either in
    (sound, filled, inside)

pub read_part_ok :
    (h : Host) (finish : Bool) (p : Parser) (f : ℕ → Frame) (rest : Bytes)
    → PartBuffer p.line_buffer
    → 0 < length rest
    → Ends (PartOk finish p f rest) (read_part h finish (reading p f rest false))
unfolding read_part
read_part_ok h finish p f rest held some_left =
    let (b, taken, sound, fresh) = buffer_ok h p.line_buffer held in
    Ends-done (PartOk finish p f rest) (or_fault (buffer_of h p.line_buffer)) b _ taken (
      Ends-sized (PartOk finish p f rest) _ (getline (header h) b rest (some p.truncate) finish) _
        (λ small.
          let (l, e, sound', either) =
            getline-IsSound (header h) (header_positive h) b rest (some p.truncate) finish sound
              small in
          let (left, over) = getline_rest (header h) b rest (some p.truncate) finish l e in
          let fewer : length l.rest ≤ length rest = rw left (line_left rest) in
          (
            l,
            e,
            elim (Bool-cases l.ended) [
              | inl ends ↦ rw ends (
                  Ends-bind IsMarked (PartOk finish p f rest) (mark_line h l.str) _
                    (mark_line_ok h l.str sound')
                    (λ str marked. (
                      str,
                      count_of l.truncate p.truncate,
                      l.rest,
                      true,
                      refl,
                      fewer,
                      inl (
                        refl,
                        marked,
                        at_end l.rest finish (rw left (split_line_lem rest).2)
                            (rw left (sym over ∙ ends)),
                      ),
                    )))
              | inr waits ↦
                  let (none_left, last) = chunk_over l.rest finish (rw left (sym over ∙ waits)) in
                  let part =
                    line-IsPart b l.str rest p.truncate fresh sound' some_left
                      (sym left ∙ none_left) either in
                  rw waits (
                    l.str,
                    count_of l.truncate p.truncate,
                    l.rest,
                    false,
                    refl,
                    fewer,
                    inr (refl, part, none_left, last),
                  )
            ],
          )))
