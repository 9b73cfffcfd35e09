-- ===== src/Meta/Distance.antt =====
-- The distance of two verbs, and the suggestion that it leads to.
use d9s.Base.{
  ℕ, suc, ◌+◌, ◌≤◌, ◌<◌, ◌≡◌, refl, ap, List, [], ◌∷◌, Option, none, some, Bytes, ltb, ◌==◌,
  if◌then◌else◌, length, min, arith, All, ◌⊎◌, inl, inr, Bool-cases,
}
use d9s.Meta.{
  CommandInfo, commands, cells, last_cell, rows, first_row, edit_distance, closest, suggestion,
}

-- The Levenshtein distance by its recursion, of two texts read from the back: one may drop the last byte
-- of either, or keep both, at no cost if they are one byte.
abbrev pub levenshtein : Bytes → Bytes → ℕ
levenshtein [] b = length b
levenshtein (c ∷ a) [] = suc (length a)
levenshtein (c ∷ a) (d ∷ b) =
    min (levenshtein a (d ∷ b) + 1)
      (min (levenshtein (c ∷ a) b + 1) (levenshtein a b + (if c == d then 0 else 1)))

-- The cells of the row of `a` behind the cell of `b`, with `more` still to come.
abbrev row_of : Bytes → Bytes → Bytes → List ℕ
row_of a b [] = []
row_of a b (d ∷ more) = levenshtein a (d ∷ b) ∷ row_of a (d ∷ b) more

abbrev pub onto : Bytes → Bytes → Bytes
onto [] b = b
onto (d ∷ more) b = onto more (d ∷ b)

cells_row :
    (c : ℕ) (a b more : Bytes)
    → cells c (levenshtein (c ∷ a) b) (levenshtein a b) (row_of a b more) more
      ≡ row_of (c ∷ a) b more
unfolding cells
cells_row c a b [] = refl
cells_row c a b (d ∷ more) = ap (λ r. levenshtein (c ∷ a) (d ∷ b) ∷ r) (cells_row c a (d ∷ b) more)

last_row :
    (a b more : Bytes) → last_cell (levenshtein a b) (row_of a b more) ≡ levenshtein a (onto more b)
unfolding last_cell
last_row a b [] = refl
last_row a b (d ∷ more) = last_row a (d ∷ b) more

empty_row : (b more : Bytes) → first_row (suc (length b)) more ≡ row_of [] b more
unfolding first_row
empty_row b [] = refl
empty_row b (d ∷ more) = ap (λ r. suc (length b) ∷ r) (empty_row (d ∷ b) more)

rows_from :
    (a more b : Bytes)
    → rows (levenshtein a []) (row_of a [] b) (suc (length a)) more b
      ≡ levenshtein (onto more a) (onto b [])
unfolding rows
rows_from a [] b = last_row a [] b
rows_from a (c ∷ more) b = rw (cells_row c a [] b) (rows_from (c ∷ a) more b)

-- editDistance is the Levenshtein distance: it agrees with the recursion on the two verbs read from the
-- back.
pub edit_distance-levenshtein :
    (a b : Bytes) → edit_distance a b ≡ levenshtein (onto a []) (onto b [])
unfolding edit_distance
edit_distance-levenshtein a b = rw (empty_row [] b) (rows_from [] a b)

-- The verb stands in the list.
abbrev pub IsVerb : Bytes → List CommandInfo → Type 0
IsVerb v [] = ⊥
IsVerb v (c ∷ cs) = (c.verb ≡ v) ⊎ IsVerb v cs

-- No verb of the list is nearer than `n`.
abbrev pub NoneNearer : Bytes → ℕ → List CommandInfo → Type 0
NoneNearer verb n = All (λ c. n ≤ edit_distance verb c.verb)

-- What the loop has found: nothing below the bound, or a verb that is.
data Found (verb : Bytes) (best : Option Bytes) (dist : ℕ) (cs : List CommandInfo)
    (o : Option Bytes) : Type 0 where
  kept : o ≡ best → NoneNearer verb dist cs → Found verb best dist cs o
  found :
      (v : Bytes)
      → o ≡ some v
      → IsVerb v cs
      → edit_distance verb v < dist
      → NoneNearer verb (edit_distance verb v) cs
      → Found verb best dist cs o

nearer_found :
    (verb : Bytes) (best : Option Bytes) (dist : ℕ) (c : CommandInfo) (cs : List CommandInfo)
    (o : Option Bytes)
    → edit_distance verb c.verb < dist
    → Found verb (some c.verb) (edit_distance verb c.verb) cs o
    → Found verb best dist (c ∷ cs) o
nearer_found verb best dist c cs o h (kept e k) = found c.verb e (inl refl) h (omega arith, k)
nearer_found verb best dist c cs o h (found v e i l k) =
    found v e (inr i) (omega (arith, h, l)) (omega (arith, l), k)

same_found :
    (verb : Bytes) (best : Option Bytes) (dist : ℕ) (c : CommandInfo) (cs : List CommandInfo)
    (o : Option Bytes)
    → dist ≤ edit_distance verb c.verb
    → Found verb best dist cs o
    → Found verb best dist (c ∷ cs) o
same_found verb best dist c cs o h (kept e k) = kept e (h, k)
same_found verb best dist c cs o h (found v e i l k) = found v e (inr i) l (omega (arith, h, l), k)

closest-Found :
    (verb : Bytes) (best : Option Bytes) (dist : ℕ) (cs : List CommandInfo)
    → Found verb best dist cs (closest verb best dist cs)
unfolding closest
closest-Found verb best dist [] = kept refl tt
closest-Found verb best dist (c ∷ cs) = elim (Bool-cases (ltb (edit_distance verb c.verb) dist)) [
  | inl e ↦ rw e (
      nearer_found verb best dist c cs _ (ground arith)
        (closest-Found verb (some c.verb) (edit_distance verb c.verb) cs))
  | inr e ↦ rw e (same_found verb best dist c cs _ (ground arith) (closest-Found verb best dist cs))
]

-- What a suggestion is: a verb of the table within two edits, and none is nearer; or, when there is
-- none, every verb is three edits away or more.
abbrev pub IsSuggestion : Bytes → Option Bytes → Type 0
IsSuggestion verb none = NoneNearer verb 3 commands
IsSuggestion verb (some v) =
    IsVerb v commands × (edit_distance verb v ≤ 2) × NoneNearer verb (edit_distance verb v) commands

found-IsSuggestion :
    (verb : Bytes) (o : Option Bytes) → Found verb none 3 commands o → IsSuggestion verb o
found-IsSuggestion verb none (kept e k) = k
found-IsSuggestion verb none (found v e i l k) = cc
found-IsSuggestion verb (some v) (kept e k) = cc
found-IsSuggestion verb (some v) (found w e i l k) =
    let is : v ≡ w = cc in rw is (i, omega (arith, l), k)

-- For a verb that is none, unknownVerb suggests a closest command if one is within two edits, and
-- none otherwise.
pub suggestion-IsSuggestion : (verb : Bytes) → IsSuggestion verb (suggestion verb)
unfolding suggestion
suggestion-IsSuggestion verb =
    found-IsSuggestion verb (suggestion verb) (closest-Found verb none 3 commands)
