-- ===== src/Grid/Keys.antt =====
-- internal/ui/grid.go: the keys of the results pane. The pane scrolls by lines: `offset` is the first line
-- of the viewport, `height` its lines, and `title_line` the line of the focused result. A line that is
-- shown is in the content of the viewport, which takes it as it is.
pub mod Inside
use mathlib.Core.List.{reverse}
use d9s.Base.{
  ℕ, zero, suc, ◌+◌, ◌-◌, Bool, true, false, not, ◌&&◌, ◌||◌, List, [], ◌∷◌, ◌++◌, Option, none,
  some, Bytes, codes, ltb, leb, ◌==◌, if◌then◌else◌, length, min, max, get_elem?, equal, take, drop,
}
use d9s.Config.Connection.{contains_text}
use d9s.Base.Int.{ℤ, pos, negsuc, one_more, one_less, same_int}
use d9s.Grid.{
  GridRow, GridResult, Grid, cell_at, clamp, rebuild_grid, sort_none, filter_all_columns,
}

-- gridHeaderLines
abbrev pub grid_header_lines : ℕ
grid_header_lines = 3

-- inspectModel without its viewport
pub record Inspect : Type 0 where
  pub is_open : Bool
  pub row : ℤ
  pub count : ℕ
  pub raw : Bytes

abbrev pub no_inspect : Inspect
no_inspect = record { is_open = false; row = pos 0; count = 0; raw = [] }

pub record Pane : Type 0 where
  pub grid : Grid
  pub result : Option GridResult
  pub title_line : Option ℕ
  pub offset : ℕ
  pub height : ℕ
  pub inspect : Inspect

unfoldable pub scrolled : ℕ → ℕ → ℕ → ℕ
scrolled line offset height =
    if ltb line offset
    then line
    else if leb (offset + height) line
    then line + 1 - height
    else offset

-- The line of a row below a line; above the content the viewport stops at its first line.
abbrev pub line_of : ℕ → ℤ → ℕ
line_of top (pos n) = top + n
line_of top (negsuc n) = top - suc n

-- showCell
unfoldable pub show_cell : Pane → Pane
unfolding scrolled
show_cell p = elim p.title_line [
  | none ↦ p
  | some top ↦ record p {
    offset = scrolled (line_of (top + grid_header_lines) p.grid.row) p.offset p.height;
  }
]

-- gridColumns
unfoldable pub grid_columns : Option GridResult → ℕ
grid_columns none = 0
grid_columns (some res) = length res.columns

-- A step of the selection: a row or a column on, or back.
pub data Move : Type 0 where
  down up right left : Move

unfoldable pub moved : Move → Grid → Grid
moved down g = record g { row = one_more g.row }
moved up g = record g { row = one_less g.row }
moved right g = record g { col = one_more g.col }
moved left g = record g { col = one_less g.col }

-- sortByColumn on the selected column: ascending, descending, and the order of the engine.
unfoldable pub cycled : Grid → Grid
unfolding same_int
cycled g =
    if not (same_int g.sort_col g.col)
    then record g { sort_col = g.col; sort_desc = false }
    else if not g.sort_desc
    then record g { sort_desc = true }
    else record g { sort_col = sort_none; sort_desc = false }

-- A key: its String, the runes that it types, each by its bytes, when alt is not held, and whether it is
-- the space.
pub record GridKey : Type 0 where
  pub name : Bytes
  pub runes : Option (List Bytes)
  pub is_space : Bool

unfoldable pub joined : List Bytes → Bytes
joined [] = []
joined (r ∷ rs) = r ++ joined rs

module _ {F : Type 0} (parse : Bytes → Option F) (less : F → F → Bool)
    (drop_rune : Bytes → Bytes) where
  -- moveCell
  unfoldable pub move_cell : Move → Pane → Pane
  unfolding moved clamp show_cell grid_columns
  move_cell m p =
      show_cell (record p { grid = clamp parse less (grid_columns p.result) (moved m p.grid) })

  unfoldable pub rebuilt_pane : Grid → Pane → Pane
  unfolding rebuild_grid
  rebuilt_pane g p = record p { grid = rebuild_grid parse less p.result g }

  -- sortByColumn
  unfoldable pub sort_by_column : Pane → Pane
  unfolding cycled rebuilt_pane show_cell grid_columns
  sort_by_column p =
      if grid_columns p.result == 0 then p else show_cell (rebuilt_pane (cycled p.grid) p)

  unfoldable pub filter_on : ℤ → Option GridResult → Pane → Pane
  unfolding rebuilt_pane
  filter_on col none p = p
  filter_on col (some res) p = rebuilt_pane (record p.grid { filtering = true; filter_col = col }) p

  -- startGridFilter
  unfoldable pub start_grid_filter : ℤ → Pane → Pane
  unfolding filter_on
  start_grid_filter col p = filter_on col p.result p

  -- What updateGridFilter changes before it rebuilds; `drop_rune` cuts the last rune of a text off.
  unfoldable pub filter_key : GridKey → Grid → Grid
  unfolding equal contains_text joined
  filter_key k g =
      if equal k.name (codes "esc")
      then record g { filtering = false; filter = [] }
      else if equal k.name (codes "enter")
      then record g { filtering = false }
      else if equal k.name (codes "backspace")
      then record g { filter = drop_rune g.filter }
      else if equal k.name (codes "ctrl+u")
      then record g { filter = [] }
      else if contains_text (codes "down" ∷ codes "ctrl+n" ∷ []) k.name
      then record g { row = one_more g.row }
      else if contains_text (codes "up" ∷ codes "ctrl+p" ∷ []) k.name
      then record g { row = one_less g.row }
      else elim k.runes [
        | some runes ↦ record g { filter = g.filter ++ joined runes }
        | none ↦ if k.is_space then record g { filter = g.filter ++ codes " " } else g
      ]

  -- updateGridFilter
  unfoldable pub update_grid_filter : GridKey → Pane → Pane
  unfolding filter_key rebuilt_pane show_cell
  update_grid_filter k p = show_cell (rebuilt_pane (filter_key k p.grid) p)

  -- cellAt, and the row of an index; the code indexes the rows at the selection, which clamp keeps inside.
  unfoldable pub cell_in : GridRow → ℤ → Bytes
  unfolding cell_at
  cell_in row (pos col) = cell_at row col
  cell_in row (negsuc _) = []

  unfoldable pub row_at : List GridRow → ℤ → Option GridRow
  row_at rows (pos n) = get_elem? rows n
  row_at rows (negsuc _) = none

  unfoldable pub inspect_row : Option GridResult → Option GridRow → Pane → Pane
  unfolding cell_in
  inspect_row none row p = p
  inspect_row (some res) none p = p
  inspect_row (some res) (some row) p = record p {
    inspect = record {
      is_open = true;
      row = one_more p.grid.row;
      count = length p.grid.rows;
      raw = cell_in row p.grid.col;
    };
  }

  -- openInspector; the selected row is one of the rows when there are any.
  unfoldable pub open_inspector : Pane → Pane
  unfolding inspect_row row_at
  open_inspector p = inspect_row p.result (row_at p.grid.rows p.grid.row) p

  -- The switch of updateGrid.
  unfoldable pub grid_key : Bytes → Pane → Pane × Bool
  unfolding move_cell sort_by_column start_grid_filter open_inspector contains_text equal show_cell
  grid_key name p =
      let is = contains_text in
      if is (codes "j" ∷ codes "down" ∷ []) name
      then (move_cell down p, true)
      else if is (codes "k" ∷ codes "up" ∷ []) name
      then (move_cell up p, true)
      else if is (codes "l" ∷ codes "right" ∷ []) name
      then (move_cell right p, true)
      else if is (codes "h" ∷ codes "left" ∷ []) name
      then (move_cell left p, true)
      else if is (codes "g" ∷ codes "home" ∷ []) name
      then (show_cell (record p { grid = record p.grid { row = pos 0 } }), true)
      else if is (codes "G" ∷ codes "end" ∷ []) name
      then (
        show_cell (record p { grid = record p.grid { row = pos (length p.grid.rows - 1) } }),
        true,
      )
      else if equal name (codes "o")
      then (sort_by_column p, true)
      else if equal name (codes "/")
      then (start_grid_filter filter_all_columns p, true)
      else if equal name (codes "f")
      then (start_grid_filter p.grid.col p, true)
      else if equal name (codes "enter")
      then (open_inspector p, true)
      else (p, false)

  -- updateGrid
  unfoldable pub update_grid : GridKey → Pane → Pane × Bool
  unfolding grid_key update_grid_filter grid_columns
  update_grid k p =
      if p.grid.filtering
      then (update_grid_filter k p, true)
      else if grid_columns p.result == 0
      then (p, false)
      else grid_key k.name p
