-- ===== src/Schema/Resolved.antt =====
-- Which table a name in a statement stands for.
use d9s.Base.{
  ◌≡◌, ◌≢◌, refl, sym, ◌⊎◌, inl, inr, true, List, [], ◌∷◌, none, some, Bytes, equal, equal_iff,
  arith, All, Bool-cases, Option-cases,
}
use d9s.Schema.{
  Cache, State, cold, loading, ready, failed, is_ready, canonical, leaf, first_name, resolve,
}

abbrev pub Listed : Bytes → List Bytes → Type 0
Listed name [] = ⊥
Listed name (x ∷ xs) = (x ≡ name) ⊎ Listed name xs

first_name-some :
    (form : Bytes → Bytes) (want : Bytes) (names : List Bytes) (name : Bytes)
    → first_name form want names ≡ some name
    → Listed name names × (form name ≡ want)
unfolding first_name
first_name-some form want [] name h = cc
first_name-some form want (x ∷ xs) name h = elim (Bool-cases (equal (form x) want)) [
  | inl e ↦
      let is : x ≡ name = ground arith in (inl is, rw (sym is) ((equal_iff (form x) want).0 e))
  | inr e ↦ let rest = first_name-some form want xs name (ground arith) in (inr rest.0, rest.1)
]

first_name-none :
    (form : Bytes → Bytes) (want : Bytes) (names : List Bytes)
    → first_name form want names ≡ none
    → All (λ name. form name ≢ want) names
unfolding first_name
first_name-none form want [] h = tt
first_name-none form want (x ∷ xs) h = (
  λ e. ground (arith, (equal_iff (form x) want).1 e),
  first_name-none form want xs (ground arith),
)

ready_is : (s : State) → is_ready s ≡ true → s ≡ ready
ready_is cold h = cc
ready_is loading h = cc
ready_is ready h = refl
ready_is failed h = cc

-- What a name in a statement stands for.
abbrev pub Means : Cache → Bytes → Bytes → Type 0
Means c table name =
    (c.tables.state ≡ ready)
    × Listed name c.tables.names
    × ((canonical name ≡ canonical table)
        ⊎ (All (λ other. canonical other ≢ canonical table) c.tables.names
            × (leaf (canonical name) ≡ leaf (canonical table))))

-- A table that a name resolves to is listed, and the listing is loaded. It is the name up to case and
-- blanks, or no table is, and then it is so without the schema in front of either.
pub resolve-Means :
    (c : Cache) (table name : Bytes) → resolve c table ≡ some name → Means c table name
unfolding resolve
resolve-Means c table name h = elim (Bool-cases (is_ready c.tables.state)) [
  | inl e ↦ elim (Option-cases (first_name canonical (canonical table) c.tables.names)) [
    | inl q ↦
        let at_leaf =
          first_name-some (λ n. leaf (canonical n)) _ c.tables.names name (rw (e, q) at h) in
        (
          ready_is c.tables.state e,
          at_leaf.0,
          inr (first_name-none canonical _ c.tables.names q, at_leaf.1),
        )
    | inr (found, q) ↦
        let is : found ≡ name = ground (arith, rw (e, q) at h) in
        let exact = first_name-some canonical _ c.tables.names found q in
        rw (sym is) (ready_is c.tables.state e, exact.0, inl exact.1)
  ]
  | inr e ↦ ground arith
]
