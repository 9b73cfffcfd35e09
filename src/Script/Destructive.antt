-- ===== src/Script/Destructive.antt =====
-- Destructive: which statements need a confirmation.
pub mod Words
pub mod Keywords
use d9s.Base.{
  ℕ, zero, suc, ◌+◌, ◌-◌, ◌≡◌, refl, Bool, true, false, not, ◌&&◌, ◌||◌, List, [], ◌∷◌, Bytes,
  codes, ◌==◌, if◌then◌else◌, equal, to_upper, fields,
}
use d9s.Script.Token.{
  EngineType, postgres, clickhouse, redis, is_clickhouse, Token, is_punct_text, is_word,
}
use d9s.Script.Tokens.{tokenize_sql}

-- The loop of topLevelSQLWords.
pub top_words : ℕ → List Token → List Bytes
top_words depth [] = []
top_words depth (t ∷ ts) =
    let opens = is_punct_text t (codes "(") in
    let closes = is_punct_text t (codes ")") in
    let rest = top_words (if opens then depth + 1 else if closes then depth - 1 else depth) ts in
    if opens
    then rest
    else if closes
    then rest
    else if is_word t.kind && depth == 0
    then to_upper t.text ∷ rest
    else rest

-- topLevelSQLWords
unfoldable pub top_level_sql_words : Bytes → Bool → List Bytes
unfolding top_words
top_level_sql_words stmt backtick = top_words 0 (tokenize_sql stmt backtick)

-- The word is one of the list.
abbrev pub one_of : Bytes → List Bytes → Bool
one_of w [] = false
one_of w (x ∷ xs) = equal w x || one_of w xs

-- The switch over the words of an SQL statement.
pub destructive_words : List Bytes → Bool
destructive_words [] = false
destructive_words (w ∷ ws) =
    if one_of w (codes "DROP" ∷ codes "TRUNCATE" ∷ codes "ALTER" ∷ [])
    then true
    else if one_of w (codes "DELETE" ∷ codes "UPDATE" ∷ [])
    then not (one_of (codes "WHERE") ws)
    else false

-- The switch over the fields of a Redis command. A word equals "SET" under strings.EqualFold when it
-- is SET in upper case.
pub destructive_fields : List Bytes → Bool
destructive_fields [] = false
destructive_fields (f ∷ fs) =
    if one_of (to_upper f)
      (codes "FLUSHALL" ∷ codes "FLUSHDB" ∷ codes "DEL" ∷ codes "SHUTDOWN" ∷ [])
    then true
    else if equal (to_upper f) (codes "CONFIG")
    then elim fs [ [] ↦ false | ◌∷◌ g _ ↦ equal (to_upper g) (codes "SET") ]
    else false

-- isDestructive
unfoldable pub is_destructive : EngineType → Bytes → Bool
unfolding destructive_words destructive_fields is_clickhouse
is_destructive redis stmt = destructive_fields (fields stmt)
is_destructive engine stmt = destructive_words (top_level_sql_words stmt (is_clickhouse engine))

-- Destructive
unfoldable pub destructive : EngineType → List Bytes → List Bytes
destructive engine [] = []
destructive engine (s ∷ stmts) =
    let out = destructive engine stmts in if is_destructive engine s then s ∷ out else out

destructive_example :
    destructive postgres (
      codes "/* x */ drop table t"
      ∷ codes "delete from t where a = ')'"
      ∷ codes "delete from t using (select 1 where true)"
      ∷ codes "select 'drop'"
      ∷ [])
    ≡ codes "/* x */ drop table t" ∷ codes "delete from t using (select 1 where true)" ∷ []
unfolding destructive is_destructive top_level_sql_words tokenize_sql to_upper equal is_punct_text
    is_word
destructive_example = refl

redis_example :
    destructive redis (codes "config  set a b" ∷ codes "get k" ∷ codes "DEL k" ∷ [])
    ≡ codes "config  set a b" ∷ codes "DEL k" ∷ []
unfolding destructive is_destructive fields to_upper equal
redis_example = refl
