-- ===== src/Qualify.antt =====
-- internal/db/qualify.go: the name of a table with its schema, and its parts.
use d9s.Base.{
  ℕ, ◌≡◌, refl, Bool, ◌||◌, [], ◌∷◌, ◌++◌, Option, none, some, Bytes, codes, ◌==◌, equal,
  if◌then◌else◌, Lacks, arith, ap, Bool-cases, inl, inr,
}

-- A schema that is left out: none, or the default of an engine.
unfoldable pub is_default : Bytes → Bool
is_default schema =
    equal schema [] || equal schema (codes "public") || equal schema (codes "default")

unfoldable pub qualify : Bytes → Bytes → Bytes
unfolding is_default
qualify schema name = if is_default schema then name else schema ++ (b'.' ∷ name)

abbrev push_front : ℕ → Option (Bytes × Bytes) → Option (Bytes × Bytes)
push_front c none = none
push_front c (some r) = some (c ∷ r.0, r.1)

-- strings.Cut at a byte; none when the byte is not there
unfoldable cut : ℕ → Bytes → Option (Bytes × Bytes)
cut b [] = none
cut b (c ∷ s) = let rest = push_front c (cut b s) in if c == b then some ([], s) else rest

abbrev parts_or : Bytes → Bytes → Option (Bytes × Bytes) → Bytes × Bytes
parts_or table def none = (def, table)
parts_or table def (some parts) = parts

unfoldable pub split_qualified : Bytes → Bytes → Bytes × Bytes
unfolding cut
split_qualified table def = parts_or table def (cut b'.' table)

cut_found : (s rest : Bytes) → Lacks b'.' s → cut b'.' (s ++ (b'.' ∷ rest)) ≡ some (s, rest)
unfolding cut
cut_found [] rest h = refl
cut_found (c ∷ s) rest h = ground (arith, h.0, cut_found s rest h.1)

cut_absent : (s : Bytes) → Lacks b'.' s → cut b'.' s ≡ none
unfolding cut
cut_absent [] h = refl
cut_absent (c ∷ s) h = ground (arith, h.0, cut_absent s h.1)

split_qualified_both :
    (schema name def : Bytes)
    → Lacks b'.' schema
    → split_qualified (schema ++ (b'.' ∷ name)) def ≡ (schema, name)
unfolding split_qualified
split_qualified_both schema name def h = ap (parts_or _ def) (cut_found schema name h)

split_qualified_bare : (name def : Bytes) → Lacks b'.' name → split_qualified name def ≡ (def, name)
unfolding split_qualified
split_qualified_bare name def h = ap (parts_or name def) (cut_absent name h)

-- splitQualified undoes qualify, when neither part holds a dot: it gives back the name, with the schema,
-- or with the fallback when the schema is one that qualify leaves out.
pub split_qualified-qualify :
    (schema name def : Bytes)
    → Lacks b'.' schema
    → Lacks b'.' name
    → split_qualified (qualify schema name) def ≡ (if is_default schema then def else schema, name)
unfolding qualify
split_qualified-qualify schema name def h k = elim (Bool-cases (is_default schema)) [
  | inl e ↦ rw e (split_qualified_bare name def k)
  | inr e ↦ rw e (split_qualified_both schema name def h)
]
