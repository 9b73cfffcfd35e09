-- ===== src/Editor/Rows.antt =====
-- internal/ui/highlight.go: positions in the rows of the editor. A line is the list of its runes, each by
-- its bytes.
use d9s.Base.{
  ℕ, suc, ◌+◌, ◌-◌, List, [], ◌∷◌, ◌++◌, Option, none, some, Bytes, ltb, if◌then◌else◌, length,
  get_elem?, take, drop, min,
}

unfoldable pub total_length : List Bytes → ℕ
total_length [] = 0
total_length (r ∷ rs) = length r + total_length rs

unfoldable pub offset_in : Option ℕ → Option (List Bytes) → ℕ → ℕ
unfolding total_length
offset_in (some start) (some line) col = start + total_length (take col line)
offset_in start line col = 0

-- offsetOf; a row that is never negative, with a start for each line
unfoldable pub offset_of : List ℕ → List (List Bytes) → ℕ → ℕ → ℕ
unfolding offset_in
offset_of starts lines row col = offset_in (get_elem? starts row) (get_elem? lines row) col

-- sort.Search of rowOfOffset: the number of the rows that start at or before the offset, which come first.
unfoldable pub rows_until : List ℕ → ℕ → ℕ
rows_until [] offset = 0
rows_until (s ∷ starts) offset =
    let rest = suc (rows_until starts offset) in if ltb offset s then 0 else rest

-- rowOfOffset
unfoldable pub row_of_offset : List ℕ → ℕ → ℕ
unfolding rows_until
row_of_offset starts offset = rows_until starts offset - 1

unfoldable pub line_length : Option (List Bytes) → ℕ
line_length none = 0
line_length (some line) = length line

-- cursorRowColIn, on the row and the column of the widget
unfoldable pub cursor_row_col_in : List (List Bytes) → ℕ → ℕ → ℕ × ℕ
unfolding line_length
cursor_row_col_in lines row col =
    let at = min row (length lines - 1) in (at, min col (line_length (get_elem? lines at)))

-- The runes and kinds of a row that rowText shows: those in the window, and a cell behind them when the
-- cursor stands there.
unfoldable pub visible_cells {ℓ} :
    {K : Type ℓ} → K → ℕ → ℕ → Option ℕ → List (Bytes × K) → List (Bytes × K)
visible_cells plain left width cursor row =
    let shown = take width (drop left row) in
    elim cursor [
      | none ↦ shown
      | some c ↦
          if ltb c (length shown)
          then shown
          else if ltb (length shown) c
          then shown
          else shown ++ (b' ' ∷ [], plain) ∷ []
    ]
