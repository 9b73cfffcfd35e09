-- ===== src/History/Loaded.antt =====
-- Append, and then Load.
use d9s.Base.{
  ◌<◌, ◌≡◌, ◌≢◌, ◌∙◌, refl, sym, ap, false, inr, List, [], ◌∷◌, ◌++◌, append_assoc, append-nil,
  Option, none, some, Bytes, leb, length, equal, equal_iff, trim_space, arith, All, All-append,
  Lacks,
}
use d9s.Script.Split.{split_lines}
use d9s.Script.Split.Lines.{split_lines-append, split_lines_end}
use d9s.History.{
  Entry, Codec, max_line_bytes, dedup, with_statement, prepend, text_entry, read_line, read_lines,
  load, append_entry,
}
use d9s.History.Recorded.{without, dedup-append}

-- A line that the scanner reads: no line end in it, and not too long.
abbrev pub IsLine : Bytes → Type 0
IsLine line = Lacks b'\n' line × (length line < max_line_bytes)

-- A file of lines, each with its end.
abbrev pub lines_text : List Bytes → Bytes
lines_text [] = []
lines_text (line ∷ lines) = line ++ (b'\n' ∷ lines_text lines)

split_lines-lines_text :
    (lines : List Bytes) → All IsLine lines → split_lines (lines_text lines) [] ≡ lines ++ ([] ∷ [])
split_lines-lines_text [] h = (split_lines_end [] []).0
split_lines-lines_text (line ∷ lines) h =
    split_lines-append line [] (b'\n' ∷ lines_text lines) h.0.0
    ∙ (split_lines_end line (lines_text lines)).1
    ∙ ap (λ r. line ∷ r) (split_lines-lines_text lines h.1)

lines_text-append :
    (lines : List Bytes) (line : Bytes)
    → lines_text lines ++ (line ++ b'\n' ∷ []) ≡ lines_text (lines ++ (line ∷ []))
lines_text-append [] line = refl
lines_text-append (l ∷ lines) line =
    append_assoc l (b'\n' ∷ lines_text lines) (line ++ b'\n' ∷ [])
    ∙ ap (λ r. l ++ (b'\n' ∷ r)) (lines_text-append lines line)

prepend-append :
    {A : Type 0} (o : Option A) (xs ys : List A) → prepend o (xs ++ ys) ≡ prepend o xs ++ ys
prepend-append none xs ys = refl
prepend-append (some x) xs ys = refl

module _ {E : Type 0} (codec : Codec E) where
  read_lines-append :
      (lines more : List Bytes)
      → All IsLine lines
      → read_lines codec (lines ++ more) ≡ read_lines codec lines ++ read_lines codec more
  unfolding read_lines
  read_lines-append [] more h = refl
  read_lines-append (line ∷ lines) more h =
      let fits : leb max_line_bytes (length line) ≡ false = ground (arith, h.0.1) in
      rw (fits, read_lines-append lines more h.1)
        (prepend-append (read_line codec line) (read_lines codec lines) (read_lines codec more))

  -- An entry that the codec writes as a line, and reads back.
  pub record IsWritten (e : Entry) (line : Bytes) : Type 0 where
    pub encoded : codec.encode e ≡ inr line
    pub decoded : codec.decode line ≡ some e
    pub is_line : IsLine line
    pub trimmed : trim_space line ≡ line
    pub not_blank : line ≢ []
    pub has_statement : e.statement ≢ []

  text_entry-written :
      (e : Entry) (line : Bytes) → IsWritten e line → text_entry codec line ≡ some e
  unfolding text_entry with_statement
  text_entry-written e line w =
      ground (
        arith,
        w.decoded,
        w.not_blank,
        w.has_statement,
        equal_iff line [],
        equal_iff e.statement [],
      )

  read_line-written : (e : Entry) (line : Bytes) → IsWritten e line → read_line codec line ≡ some e
  unfolding read_line
  read_line-written e line w = ap (text_entry codec) w.trimmed ∙ text_entry-written e line w

  read_line_empty : read_line codec [] ≡ none
  unfolding read_line text_entry trim_space equal
  read_line_empty = refl

  no_line : read_lines codec ([] ∷ []) ≡ []
  unfolding read_lines
  no_line = rw read_line_empty refl

  one_line : (e : Entry) (line : Bytes) → IsWritten e line → read_lines codec (line ∷ []) ≡ e ∷ []
  unfolding read_lines
  one_line e line w =
      let fits : leb max_line_bytes (length line) ≡ false = ground (arith, w.is_line.1) in
      rw (fits, read_line-written e line w) refl

  -- What the scanner reads of a file of lines.
  read_lines-lines_text :
      (lines : List Bytes)
      → All IsLine lines
      → read_lines codec (split_lines (lines_text lines) []) ≡ read_lines codec lines
  read_lines-lines_text lines h =
      ap (read_lines codec) (split_lines-lines_text lines h)
      ∙ read_lines-append lines ([] ∷ []) h
      ∙ ap (λ r. read_lines codec lines ++ r) no_line
      ∙ append-nil (read_lines codec lines)

  -- Appending an entry to a file of lines, none of which is too long, adds a line to it, and Load then
  -- gives that entry first and behind it what it gave before, less any entry of the same statement. The
  -- codec is taken to write the entry as one line that it reads back.
  pub load-append_entry :
      (lines : List Bytes) (e : Entry) (line : Bytes)
      → All IsLine lines
      → IsWritten e line
      → (append_entry codec (some (lines_text lines)) e ≡ inr (lines_text (lines ++ (line ∷ []))))
        × (load codec (some (lines_text (lines ++ (line ∷ []))))
            ≡ e ∷ without e.statement (load codec (some (lines_text lines))))
  unfolding load append_entry
  load-append_entry lines e line h w =
      let all = All-append IsLine lines (line ∷ []) h (w.is_line, tt) in
      (
        rw (w.encoded, lines_text-append lines line) refl,
        ap dedup (
              read_lines-lines_text (lines ++ (line ∷ [])) all
              ∙ read_lines-append lines (line ∷ []) h
              ∙ ap (λ r. read_lines codec lines ++ r) (one_line e line w))
            ∙ dedup-append (read_lines codec lines) e
            ∙ ap (λ r. e ∷ without e.statement (dedup r)) (sym (read_lines-lines_text lines h)),
      )
