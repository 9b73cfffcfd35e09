-- ===== src/Picker/Chosen.antt =====
-- The entry that the picker takes for the highlighted row.
use d9s.Base.{
  ℕ, zero, suc, ◌+◌, ◌-◌, ◌≡◌, sym, ap, ◌∙◌, true, false, ◌&&◌, List, [], ◌∷◌, Option, some, Bytes,
  arith, get_elem?, equal, equal_refl, ◌==◌, if◌then◌else◌, inl, inr, Bool-cases,
}
use d9s.Picker.{
  OpPicker, is_shown, shown_rows, needle, all_rows, rows_of, index_from, index_when, selected_index,
}

-- An entry of a list at an index, counted from another.
Found : List (Bytes × Bytes) → ℕ → Bytes × Bytes → Option ℕ → Type 0
Found rs i want got = (j : ℕ) × (got ≡ some (i + j)) × (get_elem? rs j ≡ some want)

Found-behind :
    (r : Bytes × Bytes) (rs : List (Bytes × Bytes)) (i : ℕ) (want : Bytes × Bytes) (got : Option ℕ)
    → Found rs (suc i) want got
    → Found (r ∷ rs) i want got
unfolding Found
Found-behind r rs i want got (j, a, b) =
    let moved : suc i + j ≡ i + suc j = omega arith in (suc j, a ∙ ap (λ n. some n) moved, b)

Found-here :
    (r : Bytes × Bytes) (rs : List (Bytes × Bytes)) (i : ℕ) (want : Bytes × Bytes)
    → r ≡ want
    → Found (r ∷ rs) i want (some i)
unfolding Found
Found-here r rs i want e =
    let same : i ≡ i + 0 = omega arith in (0, ap (λ n. some n) same, ap (λ x. some x) e)

shown_step :
    (q : Bytes) (sel seen i k : ℕ) (want r : Bytes × Bytes) (rs : List (Bytes × Bytes))
    → sel ≡ seen + k
    → (sel ≡ suc seen + (k - 1)
        → get_elem? (shown_rows q rs) (k - 1) ≡ some want
        → Found rs (suc i) want (index_from q sel want.0 (suc seen) (suc i) rs))
    → get_elem? (r ∷ shown_rows q rs) k ≡ some want
    → Found (r ∷ rs) i want (
        if seen == sel && equal r.0 want.0
        then some i
        else index_from q sel want.0 (suc seen) (suc i) rs)
shown_step q sel seen i zero want r rs e rec h =
    let same : r ≡ want = cc in
    let here : (seen == sel) ≡ true = ground arith in
    let named : equal r.0 want.0 ≡ true = ap (λ x. equal r.0 x.0) (sym same) ∙ equal_refl r.0 in
    rw (here, named) (Found-here r rs i want same)
shown_step q sel seen i (suc k) want r rs e rec h =
    let later : (seen == sel) ≡ false = ground arith in
    let less : suc k - 1 ≡ k = omega arith in
    rw later (
      Found-behind r rs i want _
        (rec (omega arith) (ap (λ n. get_elem? (shown_rows q rs) n) less ∙ h)))

-- The walk finds the entry of a row that is shown.
index_from-Found :
    (q : Bytes) (sel seen i k : ℕ) (want : Bytes × Bytes) (rs : List (Bytes × Bytes))
    → sel ≡ seen + k
    → get_elem? (shown_rows q rs) k ≡ some want
    → Found rs i want (index_from q sel want.0 seen i rs)
unfolding index_from shown_rows
index_from-Found q sel seen i k want [] e = λ h. cc
index_from-Found q sel seen i k want (r ∷ rs) e = elim (Bool-cases (is_shown q r.0)) [
  | inr f ↦
      rw f (λ h. Found-behind r rs i want _ (index_from-Found q sel seen (suc i) k want rs e h))
  | inl f ↦ rw f (
      shown_step q sel seen i k want r rs e
        (index_from-Found q sel (suc seen) (suc i) (k - 1) want rs))
]

selected_index-Found :
    (p : OpPicker) (want : Bytes × Bytes)
    → get_elem? (rows_of p) p.sel ≡ some want
    → Found (all_rows p) 0 want (selected_index p)
unfolding selected_index rows_of index_when
selected_index-Found p want h =
    rw h (index_from-Found (needle p) p.sel 0 0 p.sel want (all_rows p) (omega arith) h)

-- The entry that the picker takes is the one of the highlighted row, also when several have its label.
pub selected_index-rows :
    (p : OpPicker) (want : Bytes × Bytes)
    → get_elem? (rows_of p) p.sel ≡ some want
    → (i : ℕ) × (selected_index p ≡ some i) × (get_elem? (all_rows p) i ≡ some want)
unfolding Found
selected_index-rows p want h =
    let (j, a, b) = selected_index-Found p want h in
    let same : 0 + j ≡ j = omega arith in (j, a ∙ ap (λ n. some n) same, b)
