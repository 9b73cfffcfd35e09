-- ===== src/Schema.antt =====
-- internal/schema/cache.go: the cache of table and column names. A Go map is its list of pairs, each key
-- once. What the driver lists is an argument of a load: the names, or an error.
pub mod Loads
pub mod Refreshed
pub mod Resolved
use d9s.Base.{
  ℕ, suc, ◌≡◌, Bool, true, false, ◌||◌, List, [], ◌∷◌, Option, none, some, Bytes, drop, index_byte,
  equal, if◌then◌else◌, trim_space, to_lower, ◌⊎◌, inl, inr,
}

pub data State : Type 0 where
  cold loading ready failed : State

-- entry
pub record Entry : Type 0 where
  pub names : List Bytes
  pub state : State

-- entry{}
abbrev pub empty_entry : Entry
empty_entry = record { names = []; state = cold }

pub record Cache : Type 0 where
  pub tables : Entry
  pub cols : List (Bytes × Entry)

-- New
abbrev pub new_cache : Cache
new_cache = record { tables = empty_entry; cols = [] }

abbrev pub is_loading : State → Bool
is_loading loading = true
is_loading _ = false

abbrev pub is_ready : State → Bool
is_ready ready = true
is_ready _ = false

-- canonical
unfoldable pub canonical : Bytes → Bytes
unfolding to_lower trim_space
canonical table = to_lower (trim_space table)

-- leaf
unfoldable pub leaf : Bytes → Bytes
unfolding index_byte
leaf table = elim (index_byte table b'.') [ none ↦ table | some k ↦ drop (suc k) table ]

-- c.cols[key]; a key that the map lacks has the zero entry.
unfoldable pub find : Bytes → List (Bytes × Entry) → Entry
find key [] = empty_entry
find key (p ∷ m) = if equal p.0 key then p.1 else find key m

-- delete(c.cols, key)
pub without : Bytes → List (Bytes × Entry) → List (Bytes × Entry)
without key [] = []
without key (p ∷ m) = if equal p.0 key then without key m else p ∷ without key m

-- c.cols[key] = e
pub put : Bytes → Entry → List (Bytes × Entry) → List (Bytes × Entry)
unfolding without
put key e m = (key, e) ∷ without key m

-- Tables
unfoldable pub tables : Cache → List Bytes × State
tables c = (c.tables.names, c.tables.state)

-- Columns
unfoldable pub columns : Cache → Bytes → List Bytes × State
unfolding find canonical
columns c table = let e = find (canonical table) c.cols in (e.names, e.state)

-- A loop of Resolve: the first name that `form` takes to the wanted one.
pub first_name : (Bytes → Bytes) → Bytes → List Bytes → Option Bytes
first_name form want [] = none
first_name form want (name ∷ names) =
    if equal (form name) want then some name else first_name form want names

-- Resolve
unfoldable pub resolve : Cache → Bytes → Option Bytes
unfolding first_name canonical leaf
resolve c table =
    let want = canonical table in
    let by_leaf = first_name (λ name. leaf (canonical name)) (leaf want) c.tables.names in
    if is_ready c.tables.state
    then elim (first_name canonical want c.tables.names) [ some name ↦ some name | none ↦ by_leaf ]
    else none

-- ClaimTables: the cache, and whether the caller must load.
unfoldable pub claim_tables : Cache → Cache × Bool
claim_tables c =
    if is_loading c.tables.state || is_ready c.tables.state
    then (c, false)
    else (record c { tables = record c.tables { state = loading } }, true)

-- ClaimColumns
unfoldable pub claim_columns : Cache → Bytes → Cache × Bool
unfolding find put canonical
claim_columns c table =
    let key = canonical table in
    let e = find key c.cols in
    if is_loading e.state || is_ready e.state
    then (c, false)
    else (record c { cols = put key (record { names = []; state = loading }) c.cols }, true)

-- What a load stores: the names that the driver lists, or the state of its error.
abbrev pub loaded {ℓ} : {E : Type ℓ} → List Bytes ⊎ E → Entry
loaded (inl names) = record { names = names; state = ready }
loaded (inr e) = record { names = []; state = failed }

-- LoadTables, on what the driver's ListTables returned; the error is the caller's.
unfoldable pub load_tables {ℓ} : {E : Type ℓ} → Cache → List Bytes ⊎ E → Cache
load_tables c got = record c { tables = loaded got }

-- LoadColumns
unfoldable pub load_columns {ℓ} : {E : Type ℓ} → Cache → Bytes → List Bytes ⊎ E → Cache
unfolding put canonical
load_columns c table got = record c { cols = put (canonical table) (loaded got) c.cols }

abbrev any_loading : List (Bytes × Entry) → Bool
any_loading [] = false
any_loading (p ∷ m) = is_loading p.1.state || any_loading m

-- Loading
unfoldable pub is_busy : Cache → Bool
is_busy c = is_loading c.tables.state || any_loading c.cols

-- The loop of Refresh.
pub keep_loading : List (Bytes × Entry) → List (Bytes × Entry)
keep_loading [] = []
keep_loading (p ∷ m) = if is_loading p.1.state then p ∷ keep_loading m else keep_loading m

-- Refresh
unfoldable pub refresh : Cache → Cache
unfolding keep_loading
refresh c = record {
  tables = if is_loading c.tables.state then c.tables else empty_entry;
  cols = keep_loading c.cols;
}
