-- ===== src/Complete/Quote.antt =====
-- internal/ui/schema.go: the names and patterns that are written into a statement.
use d9s.Base.{
  ℕ, Bool, true, false, ◌&&◌, ◌||◌, List, [], ◌∷◌, ◌++◌, Bytes, codes, ◌==◌, within, if◌then◌else◌,
  contains_byte, replace_all,
}
use d9s.Base.{none, some, index_byte, take, drop, suc}
use d9s.Script.Token.{EngineType, redis, is_clickhouse}

unfoldable pub is_plain_start : ℕ → Bool
is_plain_start r = within b'a' b'z' r || r == b'_'

unfoldable pub is_plain_rest : Bytes → Bool
unfolding is_plain_start
is_plain_rest [] = true
is_plain_rest (r ∷ s) = (is_plain_start r || within b'0' b'9' r) && is_plain_rest s

-- plainIdent: a rune beyond ASCII is refused by the first of its bytes.
unfoldable pub plain_ident : Bytes → Bool
unfolding is_plain_start is_plain_rest
plain_ident [] = false
plain_ident (r ∷ s) = is_plain_start r && is_plain_rest s

-- quoteIdent
unfoldable pub quote_ident : EngineType → Bytes → Bytes
unfolding plain_ident replace_all is_clickhouse
quote_ident engine name =
    if plain_ident name
    then name
    else if is_clickhouse engine
    then b'`' ∷ (replace_all name (codes "`") (codes "``") ++ codes "`")
    else b'"' ∷ (replace_all name (codes "\"") (codes "\"\"") ++ codes "\"")

-- quoteTable
unfoldable pub quote_table : EngineType → Bytes → Bytes
unfolding quote_ident index_byte
quote_table engine table = elim (index_byte table b'.') [
  | none ↦ quote_ident engine table
  | some i ↦
      quote_ident engine (take i table) ++ codes "." ++ quote_ident engine (drop (suc i) table)
]

-- strings.ContainsAny
unfoldable pub contains_any : Bytes → Bytes → Bool
unfolding contains_byte
contains_any [] chars = false
contains_any (c ∷ s) chars = contains_byte chars c || contains_any s chars

-- The replacer of redisPattern.
unfoldable pub escape : Bytes → Bytes
escape [] = []
escape (c ∷ s) = if c == b'\\' || c == b'"' then b'\\' ∷ c ∷ escape s else c ∷ escape s

-- redisPattern
unfoldable pub redis_pattern : Bytes → Bytes
unfolding contains_any escape
redis_pattern prefix =
    let p = prefix ++ codes "*" in
    if contains_any p (codes " \t\"'\\") then b'"' ∷ (escape p ++ codes "\"") else p

-- strings.Join with a comma and a blank
unfoldable pub join_names : EngineType → List Bytes → Bytes
unfolding quote_ident
join_names engine [] = []
join_names engine (n ∷ []) = quote_ident engine n
join_names engine (n ∷ m ∷ names) =
    quote_ident engine n ++ codes ", " ++ join_names engine (m ∷ names)

abbrev pub column_list : EngineType → List Bytes → Bytes
column_list engine [] = codes "*"
column_list engine (n ∷ names) = join_names engine (n ∷ names)

abbrev pub template : EngineType → Bytes → List Bytes → Bytes
template redis table cols = codes "SCAN 0 MATCH " ++ redis_pattern table ++ codes " COUNT 100"
template engine table cols =
    codes "SELECT "
    ++ column_list engine cols
    ++ codes " FROM "
    ++ quote_table engine table
    ++ codes " LIMIT 100;"

-- schemaTemplate, on the names of the columns
unfoldable pub schema_template : EngineType → Bytes → List Bytes → Bytes
unfolding redis_pattern quote_table join_names
schema_template engine [] cols = []
schema_template engine (c ∷ table) cols = template engine (c ∷ table) cols
