-- ===== src/Tests/GridRuns.antt =====
-- internal/ui/grid.go at concrete inputs.
use d9s.Base.{
  ℕ, ◌<◌, ◌-◌, ◌≡◌, refl, [], ◌∷◌, List, none, some, Bytes, codes, arith, length, min, ltb, equal,
  trim_space, to_lower,
}
use d9s.Base.Int.{pos, pos_part}
use d9s.Config.Net.{unsigned}
use d9s.Grid.{
  GridRow, GridResult, fresh_grid, rebuild_grid, rebuilt_with, rebuilt, sorted_by, filter_rows,
  clamp,
}
use d9s.Grid.Visible.{visible_columns, Shows, visible_columns-Shows}
use d9s.Grid.Keys.{Pane, no_inspect, rebuilt_pane}
use d9s.Grid.Keys.Inside.{opened, next, focuses, pane-IsInside}

abbrev table_rows : List GridRow
table_rows =
    (codes "9" ∷ codes "b" ∷ [])
    ∷ (codes "NULL" ∷ codes "c" ∷ [])
    ∷ (codes "10" ∷ codes "a" ∷ [])
    ∷ []

abbrev widths : List ℕ
widths = 20 ∷ 30 ∷ []

visible_columns-Shows_example :
    Shows
      (10 ∷ widths)
      40
      (min
        (min (pos_part (pos 0)) (length (10 ∷ widths) - 1))
        (min (pos_part (pos 2)) (length (10 ∷ widths) - 1)))
      (min (pos_part (pos 2)) (length (10 ∷ widths) - 1))
      (visible_columns (10 ∷ widths) (pos 0) (pos 2) 40)
visible_columns-Shows_example = visible_columns-Shows 10 widths (pos 0) (pos 2) 40

abbrev table : GridResult
table = record { columns = codes "n" ∷ codes "s" ∷ []; rows = table_rows }

abbrev no_pane : Pane
no_pane = record {
  grid = fresh_grid;
  result = none;
  title_line = some 0;
  offset = 0;
  height = 5;
  inspect = no_inspect;
}

abbrev keep_all : Bytes → Bytes
keep_all s = s

abbrev shown : Pane
shown = rebuilt_pane unsigned ltb keep_all fresh_grid (record no_pane { result = some table })

shown_rows : 0 < length shown.grid.rows
unfolding rebuilt_pane rebuild_grid rebuilt_with rebuilt sorted_by filter_rows clamp trim_space
    to_lower equal
shown_rows = omega arith

pane-IsInside_example : (k : ℕ) × (shown.grid.row ≡ pos k) × (k < length shown.grid.rows)
pane-IsInside_example =
    pane-IsInside unsigned ltb keep_all
      (next (opened no_pane refl) (focuses (some table) fresh_grid no_pane)) shown_rows
