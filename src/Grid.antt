-- ===== src/Grid.antt =====
-- internal/ui/grid.go: the table of one result: its filter, its order, the selected cell and the columns
-- on screen. A cell is the list of its bytes. `parse` is strconv.ParseFloat on a trimmed cell, none being
-- its error, and `less` the order of floating point numbers: both are parameters.
pub mod Ordered
pub mod Visible
pub mod Keys
use d9s.Base.{
  ℕ, zero, suc, ◌+◌, ◌-◌, Bool, true, false, not, ◌&&◌, ◌||◌, List, [], ◌∷◌, ◌++◌, Option, none,
  some, Bytes, codes, ltb, leb, ◌==◌, if◌then◌else◌, length, min, max, get_elem?, equal, contains,
  to_lower, trim_space,
}
use d9s.Base.Int.{ℤ, pos, negsuc, pos_part}
use d9s.Complete.Candidates.{less_text}

abbrev pub GridRow : Type 0
GridRow = List Bytes

-- nullCell
abbrev pub null_cell : Bytes
null_cell = codes "NULL"

-- db.Result, as far as the grid reads it
pub record GridResult : Type 0 where
  pub columns : List Bytes
  pub rows : List GridRow

-- sortNone and filterAllColumns
abbrev pub sort_none : ℤ
sort_none = negsuc 0

abbrev pub filter_all_columns : ℤ
filter_all_columns = negsuc 0

-- gridModel
pub record Grid : Type 0 where
  pub row : ℤ
  pub col : ℤ
  pub col_left : ℤ
  pub sort_col : ℤ
  pub sort_desc : Bool
  pub filter : Bytes
  pub filter_col : ℤ
  pub filtering : Bool
  pub rows : List GridRow
  pub loaded : ℕ

-- reset
abbrev pub fresh_grid : Grid
fresh_grid = record {
  row = pos 0;
  col = pos 0;
  col_left = pos 0;
  sort_col = sort_none;
  sort_desc = false;
  filter = [];
  filter_col = filter_all_columns;
  filtering = false;
  rows = [];
  loaded = 0;
}

-- cellAt
unfoldable pub cell_at : GridRow → ℕ → Bytes
cell_at row col = elim (get_elem? row col) [ none ↦ [] | some cell ↦ cell ]

unfoldable pub holds_needle : Bytes → Bytes → Bool
unfolding contains to_lower
holds_needle needle cell = contains (to_lower cell) needle

unfoldable pub any_cell : Bytes → GridRow → Bool
unfolding holds_needle
any_cell needle [] = false
any_cell needle (cell ∷ row) = holds_needle needle cell || any_cell needle row

-- rowMatches
unfoldable pub row_matches : GridRow → Bytes → ℤ → Bool
unfolding any_cell holds_needle
row_matches row needle (negsuc _) = any_cell needle row
row_matches row needle (pos col) = elim (get_elem? row col) [
  | none ↦ false
  | some cell ↦ holds_needle needle cell
]

-- The loop of filterRows.
unfoldable pub matching_rows : List GridRow → Bytes → ℤ → List GridRow
unfolding row_matches
matching_rows [] needle col = []
matching_rows (row ∷ rows) needle col =
    let rest = matching_rows rows needle col in
    if row_matches row needle col then row ∷ rest else rest

-- filterRows
unfoldable pub filter_rows : List GridRow → Bytes → ℤ → List GridRow
unfolding matching_rows to_lower trim_space equal
filter_rows rows filter col =
    let needle = to_lower (trim_space filter) in
    if equal needle [] then rows else matching_rows rows needle col

-- An insertion into rows that `before` orders, behind the rows that it does not go before: with
-- sort_rows the stable sort of the library.
unfoldable pub insert_row : (GridRow → GridRow → Bool) → GridRow → List GridRow → List GridRow
insert_row before row [] = row ∷ []
insert_row before row (x ∷ xs) =
    let rest = insert_row before row xs in if before x row then x ∷ rest else row ∷ x ∷ xs

unfoldable pub stable_sort : (GridRow → GridRow → Bool) → List GridRow → List GridRow
unfolding insert_row
stable_sort before [] = []
stable_sort before (x ∷ xs) = insert_row before x (stable_sort before xs)

module _ {F : Type 0} (parse : Bytes → Option F) (less : F → F → Bool) where
  -- parseCell
  unfoldable pub parse_cell : Bytes → Option F
  unfolding equal trim_space
  parse_cell s = if equal s [] || equal s null_cell then none else parse (trim_space s)

  unfoldable pub parses : Bytes → Bool
  unfolding parse_cell
  parses s = elim (parse_cell s) [ none ↦ false | some f ↦ true ]

  -- The loop of numericColumn, with `seen`.
  unfoldable pub all_numbers : List GridRow → ℕ → Bool → Bool
  unfolding cell_at parses equal
  all_numbers [] col seen = seen
  all_numbers (row ∷ rows) col seen =
      let cell = cell_at row col in
      let skipped = equal cell [] || equal cell null_cell in
      let rest = all_numbers rows col (seen || not skipped) in
      if not skipped && not (parses cell) then false else rest

  -- numericColumn
  unfoldable pub numeric_column : List GridRow → ℕ → Bool
  unfolding all_numbers
  numeric_column rows col = all_numbers rows col false

  -- The end of lessCell.
  unfoldable pub less_lower : Bytes → Bytes → Bool
  unfolding to_lower less_text equal
  less_lower a b = not (equal (to_lower a) (to_lower b)) && less_text (to_lower a) (to_lower b)

  unfoldable pub less_parsed : Option F → Option F → Bool → Bool
  less_parsed (some f) (some g) text = less f g
  less_parsed (some f) none text = true
  less_parsed none (some g) text = false
  less_parsed none none text = text

  -- lessCell
  unfoldable pub less_cell : Bytes → Bytes → Bool → Bool
  unfolding less_lower less_parsed parse_cell
  less_cell a b numeric =
      if numeric then less_parsed (parse_cell a) (parse_cell b) (less_lower a b) else less_lower a b

  -- The order of sortRows on two rows.
  unfoldable pub row_before : ℕ → Bool → Bool → GridRow → GridRow → Bool
  unfolding less_cell cell_at
  row_before col desc numeric x y =
      if desc
      then less_cell (cell_at y col) (cell_at x col) numeric
      else less_cell (cell_at x col) (cell_at y col) numeric

  -- sortRows
  unfoldable pub sort_rows : List GridRow → ℕ → Bool → List GridRow
  unfolding stable_sort row_before numeric_column
  sort_rows rows col desc = stable_sort (row_before col desc (numeric_column rows col)) rows

  -- clamp; pos_part is the maximum with 0.
  unfoldable pub clamp : ℕ → Grid → Grid
  clamp cols g =
      let col = min (pos_part g.col) (cols - 1) in
      record g {
        row = pos (min (pos_part g.row) (length g.rows - 1));
        col = pos col;
        col_left = pos (min (pos_part g.col_left) col);
      }

  unfoldable pub sorted_by : ℤ → Bool → ℕ → List GridRow → List GridRow
  unfolding sort_rows
  sorted_by (negsuc _) desc cols rows = rows
  sorted_by (pos col) desc cols rows = if ltb col cols then sort_rows rows col desc else rows

  unfoldable pub rebuilt : GridResult → Grid → Grid
  unfolding clamp sorted_by filter_rows
  rebuilt res g =
      let rows =
        sorted_by g.sort_col g.sort_desc (length res.columns)
          (filter_rows res.rows g.filter g.filter_col) in
      clamp (length res.columns) (record g { loaded = length res.rows; rows = rows })

  abbrev pub emptied : Grid → Grid
  emptied g = record g { rows = []; loaded = 0; row = pos 0; col = pos 0; col_left = pos 0 }

  unfoldable pub rebuilt_with : List Bytes → GridResult → Grid → Grid
  unfolding rebuilt
  rebuilt_with [] res g = emptied g
  rebuilt_with (c ∷ cs) res g = rebuilt res g

  -- rebuildGrid, on the focused result, if there is one
  unfoldable pub rebuild_grid : Option GridResult → Grid → Grid
  unfolding rebuilt_with
  rebuild_grid none g = emptied g
  rebuild_grid (some res) g = rebuilt_with res.columns res g
