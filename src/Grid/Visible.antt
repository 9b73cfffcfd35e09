-- ===== src/Grid/Visible.antt =====
-- internal/ui/grid.go: the run of columns on screen, and what it shows.
use d9s.Base.{
  ℕ, zero, suc, ◌+◌, ◌-◌, ◌≤◌, ◌<◌, ◌≡◌, ◌⊎◌, refl, Bool, true, false, not, ◌&&◌, ◌||◌, List, [],
  ◌∷◌, arith, inl, inr, Bool-cases, if◌then◌else◌, length, take, drop, length-drop, min, ltb, leb,
}
use d9s.Base.Int.{ℤ, pos_part}

-- gridColGap
abbrev pub grid_col_gap : ℕ
grid_col_gap = 3

-- The inner loop of visibleColumns: the number of columns that fit, the first one always.
unfoldable pub fitting : ℕ → ℕ → Bool → List ℕ → ℕ
fitting width used is_first [] = 0
fitting width used is_first (w ∷ ws) =
    let more = suc (fitting width (used + w + grid_col_gap) false ws) in
    if not is_first && ltb width (used + w + grid_col_gap) then 0 else more

-- last, for a first column
unfoldable pub last_from : List ℕ → ℕ → ℕ → ℕ
unfolding fitting
last_from widths width first = first + fitting width 0 true (drop first widths)

-- The outer loop, which moves the first column until the selected one shows; it is at the selected column
-- when the fuel ends, since it starts as many places before it.
unfoldable pub shifted_window : ℕ → List ℕ → ℕ → ℕ → ℕ → ℕ × ℕ
unfolding last_from
shifted_window zero widths width selected first = (first, last_from widths width first)
shifted_window (suc fuel) widths width selected first =
    let next = shifted_window fuel widths width selected (suc first) in
    if ltb selected (last_from widths width first) || leb selected first
    then (first, last_from widths width first)
    else next

-- visibleColumns
unfoldable pub visible_columns : List ℕ → ℤ → ℤ → ℕ → ℕ × ℕ
unfolding shifted_window
visible_columns [] left selected width = (0, 0)
visible_columns (w ∷ ws) left selected width =
    let s = min (pos_part selected) (length (w ∷ ws) - 1) in
    let first = min (min (pos_part left) (length (w ∷ ws) - 1)) s in
    shifted_window (s - first) (w ∷ ws) width s first

fitting_le :
    (width used : ℕ) (is_first : Bool) (ws : List ℕ) → fitting width used is_first ws ≤ length ws
unfolding fitting
fitting_le width used is_first [] = omega arith
fitting_le width used is_first (w ∷ ws) =
    ground (arith, fitting_le width (used + w + grid_col_gap) false ws)

fitting_some : (width : ℕ) (ws : List ℕ) → 0 < length ws → 0 < fitting width 0 true ws
unfolding fitting
fitting_some width [] h = omega arith
fitting_some width (w ∷ ws) h = omega arith

-- The room that a run of columns takes, with its gaps.
pub room : List ℕ → ℕ
room [] = 0
room (w ∷ ws) = w + grid_col_gap + room ws

-- The columns that fit are one at least, and more only if they take no more than the width.
fitting-room :
    (width used : ℕ) (is_first : Bool) (ws : List ℕ)
    → (fitting width used is_first ws ≡ 0)
      ⊎ ((fitting width used is_first ws ≡ 1) × (is_first ≡ true))
      ⊎ (used + room (take (fitting width used is_first ws) ws) ≤ width)
unfolding fitting room
fitting-room width used is_first [] = inl refl
fitting-room width used false (w ∷ ws) =
    ground (arith, fitting-room width (used + w + grid_col_gap) false ws)
fitting-room width used true (w ∷ ws) =
    ground (arith, fitting-room width (used + w + grid_col_gap) false ws)

-- They are all there are, or the next one takes more.
fitting-full :
    (width used : ℕ) (is_first : Bool) (ws : List ℕ)
    → (fitting width used is_first ws ≡ length ws)
      ⊎ (width < used + room (take (suc (fitting width used is_first ws)) ws))
unfolding fitting room
fitting-full width used is_first [] = inl refl
fitting-full width used is_first (w ∷ ws) =
    ground (arith, fitting-full width (used + w + grid_col_gap) false ws)

take-room : (m n : ℕ) (ws : List ℕ) → m ≤ n → room (take m ws) ≤ room (take n ws)
unfolding room
take-room zero n ws h = omega arith
take-room (suc m) zero ws h = absurd (omega arith)
take-room (suc m) (suc n) [] h = omega arith
take-room (suc m) (suc n) (w ∷ ws) h = omega (arith, take-room m n ws (omega arith))

-- The columns from one on up to another, that one left out.
abbrev pub run_of : List ℕ → ℕ → ℕ → List ℕ
run_of widths first last = take (last - first) (drop first widths)

-- A window of the columns that shows the selected one. It takes no more than the width, unless it is one
-- column, and one column more would; and it begins at the wanted column, or as near behind it as it can:
-- from one column before, the columns up to the selected one take more than the width.
pub record Shows (widths : List ℕ) (width start selected : ℕ) (window : ℕ × ℕ) : Type 0 where
  pub begins : window.0 ≤ selected
  pub covers : selected < window.1
  pub inside : window.1 ≤ length widths
  pub fits : (window.1 ≡ suc window.0) ⊎ (room (run_of widths window.0 window.1) ≤ width)
  pub full : (window.1 ≡ length widths) ⊎ (width < room (run_of widths window.0 (suc window.1)))
  pub after : start ≤ window.0
  pub least : (window.0 ≡ start) ⊎ (width < room (run_of widths (window.0 - 1) (suc selected)))

-- What the inner loop gives for a first column.
record Fitted (widths : List ℕ) (width first : ℕ) : Type 0 where
  some_column : first < last_from widths width first
  within_widths : last_from widths width first ≤ length widths
  fits :
      (last_from widths width first ≡ suc first)
      ⊎ (room (run_of widths first (last_from widths width first)) ≤ width)
  full :
      (last_from widths width first ≡ length widths)
      ⊎ (width < room (run_of widths first (suc (last_from widths width first))))

back_to : (first k : ℕ) → (first + k - first ≡ k) × (suc (first + k) - first ≡ suc k)
back_to first k = (omega arith, omega arith)

last_from-Fitted :
    (widths : List ℕ) (width first : ℕ) → first < length widths → Fitted widths width first
unfolding last_from
last_from-Fitted widths width first h =
    let left = drop first widths in
    let k = fitting width 0 true left in
    let n = length-drop first widths in
    let b = back_to first k in
    record {
      some_column = omega (arith, fitting_some width left, n);
      within_widths = omega (arith, fitting_le width 0 true left, n);
      fits = rw b.0 (ground (arith, fitting-room width 0 true left, fitting_some width left, n));
      full = rw b.1 (ground (arith, fitting-full width 0 true left, n));
    }

-- A first column whose window ends before the selected one.
falls_short :
    (widths : List ℕ) (width selected first : ℕ)
    → first < length widths
    → selected < length widths
    → last_from widths width first ≤ selected
    → width < room (run_of widths first (suc selected))
falls_short widths width selected first h l e =
    let f = last_from-Fitted widths width first h in
    let more =
      take-room (suc (last_from widths width first) - first) (suc selected - first)
        (drop first widths) (omega arith) in
    ground (arith, f.full, more)

one_back : (n : ℕ) → suc n - 1 ≡ n
one_back n = omega arith

falls_behind :
    (widths : List ℕ) (width selected first : ℕ)
    → first < length widths
    → selected < length widths
    → last_from widths width first ≤ selected
    → width < room (run_of widths (suc first - 1) (suc selected))
falls_behind widths width selected first h l e =
    rw (one_back first) (falls_short widths width selected first h l e)

shifted_window-Shows :
    (fuel : ℕ) (widths : List ℕ) (width start selected first : ℕ)
    → first + fuel ≡ selected
    → selected < length widths
    → start ≤ first
    → (first ≡ start) ⊎ (width < room (run_of widths (first - 1) (suc selected)))
    → Shows widths width start selected (shifted_window fuel widths width selected first)
unfolding shifted_window
shifted_window-Shows zero widths width start selected first e l s m =
    let f = last_from-Fitted widths width first (omega arith) in
    record {
      begins = omega arith;
      covers = omega (arith, f.some_column);
      inside = f.within_widths;
      fits = f.fits;
      full = f.full;
      after = s;
      least = m;
    }
shifted_window-Shows (suc fuel) widths width start selected first e l s m =
    let f = last_from-Fitted widths width first (omega arith) in
    elim (Bool-cases (ltb selected (last_from widths width first) || leb selected first)) [
      | inl g ↦ rw g (record {
        begins = omega arith;
        covers = ground (arith, f.some_column);
        inside = f.within_widths;
        fits = f.fits;
        full = f.full;
        after = s;
        least = m;
      })
      | inr g ↦ rw g (
          shifted_window-Shows fuel widths width start selected (suc first) (omega arith) l
            (omega arith)
            (inr (falls_behind widths width selected first (omega arith) l (ground arith))))
    ]

-- Of a table with columns the run on screen holds the selected column, the last one when the selection is
-- beyond it. It is as long as fits in the width, the first column always, and moves away from the wanted
-- first column only as far as it takes to show the selected one.
pub visible_columns-Shows :
    (w : ℕ) (ws : List ℕ) (left selected : ℤ) (width : ℕ)
    → Shows
        (w ∷ ws)
        width
        (min
          (min (pos_part left) (length (w ∷ ws) - 1))
          (min (pos_part selected) (length (w ∷ ws) - 1)))
        (min (pos_part selected) (length (w ∷ ws) - 1))
        (visible_columns (w ∷ ws) left selected width)
unfolding visible_columns
visible_columns-Shows w ws left selected width =
    shifted_window-Shows _ (w ∷ ws) width _ _ _ (omega arith) (omega arith) (omega arith) (inl refl)
