-- ===== src/Grid/Ordered.antt =====
-- What the sort of the grid's rows keeps and in which order it leaves them.
use d9s.Base.{
  ℕ, ◌≡◌, refl, Bool, true, false, not, ◌&&◌, ◌||◌, trim_space, List, [], ◌∷◌, Option, none, some,
  Bytes, arith, inl, inr, Bool-cases, if◌then◌else◌, equal, equal_iff, to_lower, All,
}
use d9s.Complete.Candidates.{less_text}
use d9s.Grid.{GridRow, cell_at, null_cell, less_lower}

-- A strict weak order: what does not go before something is not brought before it by a third.
pub record Weak {A : Type 0} (before : A → A → Bool) : Type 0 where
  pub asym : (x y : A) → before x y ≡ true → before y x ≡ false
  pub neg_trans : (x y z : A) → before x y ≡ false → before y z ≡ false → before x z ≡ false

-- The rows of a list that a row neither goes before nor stands behind.
pub level : (GridRow → GridRow → Bool) → GridRow → GridRow → Bool
level before r x = not (before x r) && not (before r x)

pub leveled : (GridRow → GridRow → Bool) → GridRow → List GridRow → List GridRow
unfolding level
leveled before r [] = []
leveled before r (x ∷ xs) =
    let rest = leveled before r xs in if level before r x then x ∷ rest else rest

-- No row goes before one in front of it.
pub InOrder : (GridRow → GridRow → Bool) → List GridRow → Type 0
InOrder before [] = Unit
InOrder before (x ∷ xs) = All (λ y. before y x ≡ false) xs × InOrder before xs

-- A stable sort of rows: they are in order, and those on one level are the same ones in the same order.
pub record IsStableSort (before : GridRow → GridRow → Bool) (xs ys : List GridRow) : Type 0 where
  pub ordered : InOrder before ys
  pub stable : (r : GridRow) → leveled before r ys ≡ leveled before r xs

less_text_asym : (a b : Bytes) → less_text a b ≡ true → less_text b a ≡ false
unfolding less_text
less_text_asym [] [] h = cc
less_text_asym [] (x ∷ b) h = refl
less_text_asym (w ∷ a) [] h = cc
less_text_asym (w ∷ a) (x ∷ b) h = ground (arith, less_text_asym a b)

less_text_neg :
    (a b c : Bytes) → less_text a b ≡ false → less_text b c ≡ false → less_text a c ≡ false
unfolding less_text
less_text_neg [] b [] h k = refl
less_text_neg (w ∷ a) b [] h k = refl
less_text_neg [] [] (y ∷ c) h k = cc
less_text_neg [] (x ∷ b) (y ∷ c) h k = cc
less_text_neg (w ∷ a) [] (y ∷ c) h k = cc
less_text_neg (w ∷ a) (x ∷ b) (y ∷ c) h k = ground (arith, less_text_neg a b c)

less_text-Weak : Weak less_text
less_text-Weak = record { asym = less_text_asym; neg_trans = less_text_neg }

less_text_same : (a : Bytes) → less_text a a ≡ false
less_text_same a = elim (Bool-cases (less_text a a)) [ inl e ↦ less_text_asym a a e | inr e ↦ e ]

module _ {F : Type 0} (parse : Bytes → Option F) (less : F → F → Bool) where
  -- The order of the rows by a column, described for itself. A cell is blank when it is empty or NULL, and
  -- has a number when it is not blank and parses without the blanks around it.
  pub is_blank : Bytes → Bool
  is_blank cell = equal cell [] || equal cell null_cell

  pub number_of : Bytes → Option F
  number_of cell = if is_blank cell then none else parse (trim_space cell)

  pub has_number : Bytes → Bool
  has_number cell = elim (number_of cell) [ none ↦ false | some f ↦ true ]

  -- A column of numbers: every cell is blank or has a number, and one is not blank.
  pub each_cell : (Bytes → Bool) → ℕ → List GridRow → Bool
  each_cell test col [] = true
  each_cell test col (row ∷ rows) = test (cell_at row col) && each_cell test col rows

  pub holds_numbers : List GridRow → ℕ → Bool
  holds_numbers rows col =
      each_cell (λ cell. is_blank cell || has_number cell) col rows
      && not (each_cell is_blank col rows)

  -- Of two cells of such a column the smaller number goes first, a number before any other cell, and the
  -- others by their texts in lower case; of other columns all go by their texts.
  pub number_order : Option F → Option F → Bool → Bool
  number_order (some f) (some g) by_text = less f g
  number_order (some f) none by_text = true
  number_order none (some g) by_text = false
  number_order none none by_text = by_text

  pub cell_order : Bool → Bytes → Bytes → Bool
  cell_order false a b = less_text (to_lower a) (to_lower b)
  cell_order true a b =
      number_order (number_of a) (number_of b) (less_text (to_lower a) (to_lower b))

  -- Rows go by their cells in the column, and the other way round when they descend.
  pub row_order : Bool → Bool → ℕ → GridRow → GridRow → Bool
  row_order numeric false col x y = cell_order numeric (cell_at x col) (cell_at y col)
  row_order numeric true col x y = cell_order numeric (cell_at y col) (cell_at x col)

  lowered : (a b : Bytes) → less_lower parse less a b ≡ less_text (to_lower a) (to_lower b)
  unfolding less_lower
  lowered a b = elim (Bool-cases (equal (to_lower a) (to_lower b))) [
    | inl e ↦ rw (e, (equal_iff (to_lower a) (to_lower b)).0 e, less_text_same (to_lower b)) refl
    | inr e ↦ rw e refl
  ]
