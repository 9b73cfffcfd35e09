-- ===== src/Grid/Keys/Inside.antt =====
-- The selected row of the grid, through any sequence of keys and of results that come into focus.
use mathlib.Core.Path.{subst}
use d9s.Base.{
  ℕ, ◌-◌, ◌<◌, ◌≡◌, refl, sym, min, Bool, true, false, List, [], ◌∷◌, Option, none, some, Bytes,
  codes, length, ◌==◌, equal, arith, if◌then◌else◌, Option-cases, inl, inr,
}
use d9s.Base.Int.{ℤ, pos, pos_part}
use d9s.Config.Connection.{contains_text}
use d9s.Grid.{
  GridRow, GridResult, Grid, fresh_grid, clamp, sorted_by, filter_rows, rebuilt, rebuilt_with,
  rebuild_grid, filter_all_columns,
}
use d9s.Grid.Keys.{
  Move, down, up, right, left, moved, GridKey, Pane, show_cell, grid_columns, cycled, move_cell,
  rebuilt_pane, sort_by_column, filter_on, start_grid_filter, filter_key, update_grid_filter,
  inspect_row, open_inspector, grid_key, update_grid,
}

-- An index of one of so many rows.
pub IsRow : ℤ → ℕ → Type 0
IsRow row n = (k : ℕ) × (row ≡ pos k) × (k < n)

-- The selected row is one of the rows, when there are any.
pub IsInside : Grid → Type 0
IsInside g = 0 < length g.rows → IsRow g.row (length g.rows)

PaneInside : Pane → Type 0
PaneInside p = IsInside p.grid

KeyInside : Pane × Bool → Type 0
KeyInside r = PaneInside r.0

fresh_grid-IsInside : IsInside fresh_grid
unfolding IsInside
fresh_grid-IsInside = λ h. absurd (omega arith)

if-PaneInside :
    (b : Bool) (x y : Pane) → PaneInside x → PaneInside y → PaneInside (if b then x else y)
if-PaneInside true x y h k = h
if-PaneInside false x y h k = k

if-KeyInside :
    (b : Bool) (x y : Pane × Bool) → KeyInside x → KeyInside y → KeyInside (if b then x else y)
if-KeyInside true x y h k = h
if-KeyInside false x y h k = k

show_cell-PaneInside : (p : Pane) → PaneInside p → PaneInside (show_cell p)
unfolding show_cell PaneInside
show_cell-PaneInside p h = elim (Option-cases p.title_line) [
  | inl e ↦ rw e h
  | inr (top, e) ↦ rw e h
]

module _ {F : Type 0} (parse : Bytes → Option F) (less : F → F → Bool)
    (drop_rune : Bytes → Bytes) where
  clamp-IsInside : (cols : ℕ) (g : Grid) → IsInside (clamp parse less cols g)
  unfolding clamp IsInside IsRow
  clamp-IsInside cols g = λ h. (min (pos_part g.row) (length g.rows - 1), refl, omega arith)

  emptied-IsInside :
      (g : Grid)
      → IsInside (record g { rows = []; loaded = 0; row = pos 0; col = pos 0; col_left = pos 0 })
  unfolding IsInside
  emptied-IsInside g = λ h. absurd (omega arith)

  rebuilt_with-IsInside :
      (cols : List Bytes) (res : GridResult) (g : Grid)
      → IsInside (rebuilt_with parse less cols res g)
  unfolding rebuilt_with rebuilt
  rebuilt_with-IsInside [] res g = emptied-IsInside g
  rebuilt_with-IsInside (c ∷ cs) res g = clamp-IsInside (length res.columns) (record g {
    loaded = length res.rows;
    rows =
        sorted_by parse less g.sort_col g.sort_desc (length res.columns)
          (filter_rows res.rows g.filter g.filter_col);
  })

  rebuild_grid-IsInside :
      (res : Option GridResult) (g : Grid) → IsInside (rebuild_grid parse less res g)
  unfolding rebuild_grid
  rebuild_grid-IsInside none g = emptied-IsInside g
  rebuild_grid-IsInside (some res) g = rebuilt_with-IsInside res.columns res g

  rebuilt_pane-PaneInside :
      (g : Grid) (p : Pane) → PaneInside (rebuilt_pane parse less drop_rune g p)
  unfolding rebuilt_pane PaneInside
  rebuilt_pane-PaneInside g p = rebuild_grid-IsInside p.result g

  move_cell-PaneInside : (m : Move) (p : Pane) → PaneInside (move_cell parse less drop_rune m p)
  unfolding move_cell PaneInside
  move_cell-PaneInside m p =
      show_cell-PaneInside _ (clamp-IsInside (grid_columns p.result) (moved m p.grid))

  sort_by_column-PaneInside :
      (p : Pane) → PaneInside p → PaneInside (sort_by_column parse less drop_rune p)
  unfolding sort_by_column
  sort_by_column-PaneInside p h =
      if-PaneInside (grid_columns p.result == 0) _ _ h
        (show_cell-PaneInside _ (rebuilt_pane-PaneInside (cycled p.grid) p))

  filter_on-PaneInside :
      (col : ℤ) (res : Option GridResult) (p : Pane)
      → PaneInside p
      → PaneInside (filter_on parse less drop_rune col res p)
  unfolding filter_on
  filter_on-PaneInside col none p h = h
  filter_on-PaneInside col (some res) p h = rebuilt_pane-PaneInside _ p

  inspect_row-PaneInside :
      (res : Option GridResult) (row : Option GridRow) (p : Pane)
      → PaneInside p
      → PaneInside (inspect_row parse less drop_rune res row p)
  unfolding inspect_row PaneInside
  inspect_row-PaneInside none row p h = h
  inspect_row-PaneInside (some res) none p h = h
  inspect_row-PaneInside (some res) (some row) p h = h

  placed :
      (row : ℕ) (p : Pane)
      → (0 < length p.grid.rows → row < length p.grid.rows)
      → PaneInside (show_cell (record p { grid = record p.grid { row = pos row } }))
  unfolding PaneInside IsInside IsRow
  placed row p h =
      show_cell-PaneInside (record p { grid = record p.grid { row = pos row } })
        (λ k. (row, refl, h k))

  grid_key-KeyInside :
      (name : Bytes) (p : Pane) → PaneInside p → KeyInside (grid_key parse less drop_rune name p)
  unfolding grid_key KeyInside start_grid_filter open_inspector
  grid_key-KeyInside name p h =
      if-KeyInside (contains_text (codes "j" ∷ codes "down" ∷ []) name) _ _
        (move_cell-PaneInside down p)
        (if-KeyInside (contains_text (codes "k" ∷ codes "up" ∷ []) name) _ _
          (move_cell-PaneInside up p)
          (if-KeyInside (contains_text (codes "l" ∷ codes "right" ∷ []) name) _ _
            (move_cell-PaneInside right p)
            (if-KeyInside (contains_text (codes "h" ∷ codes "left" ∷ []) name) _ _
              (move_cell-PaneInside left p)
              (if-KeyInside (contains_text (codes "g" ∷ codes "home" ∷ []) name) _ _
                (placed 0 p (λ k. k))
                (if-KeyInside (contains_text (codes "G" ∷ codes "end" ∷ []) name) _ _
                  (placed (length p.grid.rows - 1) p (λ k. omega arith))
                  (if-KeyInside (equal name (codes "o")) _ _ (sort_by_column-PaneInside p h) (
                    if-KeyInside (equal name (codes "/")) _ _
                      (filter_on-PaneInside filter_all_columns p.result p h)
                      (if-KeyInside (equal name (codes "f")) _ _
                        (filter_on-PaneInside p.grid.col p.result p h)
                        (if-KeyInside (equal name (codes "enter")) _ _
                          (inspect_row-PaneInside p.result _ p h) h)))))))))

  update_grid-KeyInside :
      (k : GridKey) (p : Pane) → PaneInside p → KeyInside (update_grid parse less drop_rune k p)
  unfolding update_grid update_grid_filter KeyInside
  update_grid-KeyInside k p h =
      if-KeyInside p.grid.filtering _ _
        (show_cell-PaneInside _
          (rebuilt_pane-PaneInside (filter_key parse less drop_rune k p.grid) p))
        (if-KeyInside (grid_columns p.result == 0) _ _ h (grid_key-KeyInside k.name p h))

  -- What happens to the pane: a key, and a result that comes into focus with a fresh grid or with the one
  -- there is, which is built again, and any scrolling.
  pub data Step : Pane → Pane → Type 0 where
    keyed : (k : GridKey) (p : Pane) → Step p (update_grid parse less drop_rune k p).0
    focuses :
        (res : Option GridResult) (g : Grid) (p : Pane)
        → Step p (rebuilt_pane parse less drop_rune g (record p { result = res }))
    scrolls : (p q : Pane) → q.grid ≡ p.grid → Step p q

  pub data Reach : Pane → Type 0 where
    opened : (p : Pane) → p.grid ≡ fresh_grid → Reach p
    next : {p q : Pane} → Reach p → Step p q → Reach q

  Step-PaneInside : {p q : Pane} → Step p q → PaneInside p → PaneInside q
  unfolding PaneInside KeyInside
  Step-PaneInside (keyed k p) h = update_grid-KeyInside k p h
  Step-PaneInside (focuses res g p) h = rebuilt_pane-PaneInside g (record p { result = res })
  Step-PaneInside (scrolls p q e) h = subst IsInside (sym e) h

  Reach-PaneInside : {p : Pane} → Reach p → PaneInside p
  unfolding PaneInside
  Reach-PaneInside (opened p e) = subst IsInside (sym e) fresh_grid-IsInside
  Reach-PaneInside (next r s) = Step-PaneInside s (Reach-PaneInside r)

-- After any sequence of keys, of results that come into focus and of scrolling, the selected row of the
-- grid is one of the rows on show, when there are any.
pub pane-IsInside :
    {F : Type 0} (parse : Bytes → Option F) (less : F → F → Bool) (drop_rune : Bytes → Bytes)
    {p : Pane}
    → Reach parse less drop_rune p
    → 0 < length p.grid.rows
    → (k : ℕ) × (p.grid.row ≡ pos k) × (k < length p.grid.rows)
unfolding PaneInside IsInside IsRow
pane-IsInside parse less drop_rune {p} r h = Reach-PaneInside parse less drop_rune r h
