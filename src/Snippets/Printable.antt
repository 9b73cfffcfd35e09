-- ===== src/Snippets/Printable.antt =====
-- The styles of the queries in the file, and what they can hold.
use d9s.Base.{
  ℕ, ◌≡◌, refl, sym, ap, ◌∙◌, true, false, List, [], ◌∷◌, Bytes, ◌≢◌, ◌++◌, contains_byte, arith,
  inl, inr, Bool-cases, All,
}
use d9s.Script.Split.{split_lines}
use mathlib.Core.List.{map}
use d9s.Snippets.{
  Entry, Style, literal, double_quoted, unstyled, is_gap, ends_in_gap, lines_safe, begins_safe,
  literal_safe, query_style, styled,
}

-- A line of a text that a literal block can hold: it has no carriage return and ends in no blank.
abbrev pub IsBlockLine : Bytes → Type 0
IsBlockLine line =
    (contains_byte line b'\r' ≡ false)
    × ((front : Bytes) (last : ℕ) → line ≡ front ++ last ∷ [] → (last ≢ b' ') × (last ≢ b'\t'))

-- A text that a literal block can hold: its lines are such lines, and the first one begins with a byte
-- that is no blank.
pub IsBlock : Bytes → Type 0
IsBlock s =
    All IsBlockLine (split_lines s [])
    × ((first : ℕ) × (line : Bytes) × (lines : List Bytes) × (split_lines s []
          ≡ (first ∷ line) ∷ lines)
        × (first ≢ b' ')
        × (first ≢ b'\t'))

-- An entry whose query can be written in its style.
abbrev pub IsPrintable : Entry × Style → Type 0
IsPrintable (e, literal) = IsBlock e.query
IsPrintable (e, double_quoted) = Unit
IsPrintable (e, unstyled) = Unit

abbrev pub entry_of : Entry × Style → Entry
entry_of p = p.0

pub is_gap-false : (c : ℕ) → is_gap c ≡ false → (c ≢ b' ') × (c ≢ b'\t')
is_gap-false c h = (λ e. ground (arith, h, e), λ e. ground (arith, h, e))

pub ends_in_gap-append : (front : Bytes) (c : ℕ) → ends_in_gap (front ++ c ∷ []) ≡ is_gap c
unfolding ends_in_gap
ends_in_gap-append [] c = refl
ends_in_gap-append (x ∷ []) c = refl
ends_in_gap-append (x ∷ y ∷ front) c = ends_in_gap-append (y ∷ front) c

pub lines_safe-IsBlockLine : (lines : List Bytes) → lines_safe lines ≡ true → All IsBlockLine lines
unfolding lines_safe
lines_safe-IsBlockLine [] h = tt
lines_safe-IsBlockLine (line ∷ lines) h =
    let no_gap : ends_in_gap line ≡ false = ground arith in
    let no_return : contains_byte line b'\r' ≡ false = ground arith in
    let rest : lines_safe lines ≡ true = ground arith in
    (
      (
        no_return,
        λ front last e.
            is_gap-false last
              (sym (ends_in_gap-append front last) ∙ ap ends_in_gap (sym e) ∙ no_gap),
      ),
      lines_safe-IsBlockLine lines rest,
    )

pub begins_safe-first :
    (lines : List Bytes)
    → begins_safe lines ≡ true
    → (first : ℕ) × (line : Bytes) × (rest : List Bytes) × (lines ≡ (first ∷ line) ∷ rest)
      × (first ≢ b' ')
      × (first ≢ b'\t')
begins_safe-first [] h = cc
begins_safe-first ([] ∷ lines) h = cc
begins_safe-first ((c ∷ s) ∷ lines) h =
    let q = is_gap-false c (ground arith) in (c, s, lines, refl, q.0, q.1)

pub literal_safe-IsBlock : (s : Bytes) → literal_safe s ≡ true → IsBlock s
unfolding literal_safe IsBlock
literal_safe-IsBlock s h =
    let begins : begins_safe (split_lines s []) ≡ true = ground arith in
    let lines : lines_safe (split_lines s []) ≡ true = ground arith in
    (lines_safe-IsBlockLine (split_lines s []) lines, begins_safe-first (split_lines s []) begins)

pub query_style-IsPrintable : (e : Entry) → IsPrintable (e, query_style e.query)
unfolding query_style
query_style-IsPrintable e = elim (Bool-cases (literal_safe e.query)) [
  | inl h ↦ rw h (literal_safe-IsBlock e.query h)
  | inr h ↦ elim (Bool-cases (contains_byte e.query b'\n')) [
    | inl k ↦ rw (h, k) tt
    | inr k ↦ rw (h, k) tt
  ]
]

pub styled-IsPrintable : (es : List Entry) → All IsPrintable (styled es)
unfolding styled
styled-IsPrintable [] = tt
styled-IsPrintable (e ∷ es) = (query_style-IsPrintable e, styled-IsPrintable es)

pub map-styled : (es : List Entry) → map entry_of (styled es) ≡ es
unfolding styled
map-styled [] = refl
map-styled (e ∷ es) = ap (λ xs. e ∷ xs) (map-styled es)
