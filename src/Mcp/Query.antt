-- ===== src/Mcp/Query.antt =====
-- The tool `query` of internal/mcp/tools.go: the allowlist, the write gate, and the statements that it
-- hands to the engine. The session's driver is a parameter: what runStatement does with one statement
-- on a driver's state, and the text or the error that comes of it.
pub mod Gate
use d9s.Base.{
  ℕ, ◌≡◌, refl, ◌⊎◌, inl, inr, Bool, true, false, not, ◌&&◌, List, [], ◌∷◌, ◌++◌, Option, none,
  some, Bytes, codes, if◌then◌else◌, equal,
}
use d9s.Script.Token.{EngineType, postgres}
use d9s.Script.Split.{split}
use d9s.Script.Destructive.{destructive}

-- The fields of config.Connection that the tools read.
pub record Connection : Type 0 where
  pub name : Bytes
  pub engine : EngineType
  pub allow_write : Bool

-- Server: the connections that it exposes, and its half of the write gate
pub record Server : Type 0 where
  pub conns : List Connection
  pub allow_write : Bool

-- byName, a map filled in order: the last connection of a name is found.
pub find_last : Bytes → List Connection → Option Connection
find_last name [] = none
find_last name (c ∷ cs) = elim (find_last name cs) [
  | some d ↦ some d
  | none ↦ if equal c.name name then some c else none
]

-- lookup
unfoldable pub lookup : Server → Bytes → Option Connection
unfolding find_last
lookup s name = find_last name s.conns

-- The loop of selectConnections over the names of the allowlist; `none` is its error.
pub select_names : List Connection → List Bytes → Option (List Connection)
select_names all [] = some []
select_names all (name ∷ names) = elim (find_last name all) [
  | none ↦ none
  | some c ↦ elim (select_names all names) [ none ↦ none | some cs ↦ some (c ∷ cs) ]
]

-- selectConnections
unfoldable pub select_connections : List Connection → List Bytes → Option (List Connection)
unfolding select_names find_last
select_connections all [] = some all
select_connections all (name ∷ names) = select_names all (name ∷ names)

-- What the tool refuses with, or the error of the pool
pub data Refusal (E : Type 0) : Type 0 where
  unknown_connection : Bytes → Refusal E
  no_statement : Refusal E
  not_writable : Bytes → Bool → Bool → Refusal E
  no_session : E → Refusal E

-- checkWrite; the refusal names the halves of the gate that are open.
unfoldable pub check_write : (E : Type 0) → Server → Connection → Bytes → Option (Refusal E)
check_write E s conn stmt =
    if s.allow_write && conn.allow_write
    then none
    else some (not_writable stmt s.allow_write conn.allow_write)

-- The report on one statement: its text, its failure, or that it was skipped
pub data Report (E : Type 0) : Type 0 where
  shown : Bytes → Bytes → Report E
  failure : Bytes → E → Report E
  skipped : Bytes → Report E

-- The driver of a session, over its state: runStatement
pub record Driver (D E : Type 0) : Type 0 where
  pub run_statement : D → Bytes → D × (Bytes ⊎ E)

module _ {D E : Type 0} (driver : Driver D E) where
  pub skip_all : List Bytes → List (Report E)
  skip_all [] = []
  skip_all (stmt ∷ stmts) = skipped stmt ∷ skip_all stmts

  -- What the loop does with the result of a statement: it goes on, or it stops at the failure.
  pub after_result : Bytes → List Bytes → D → D × List (Report E) → Bytes ⊎ E → D × List (Report E)
  after_result stmt stmts d rest (inl shown_text) = (rest.0, shown stmt shown_text ∷ rest.1)
  after_result stmt stmts d rest (inr e) = (d, failure stmt e ∷ skip_all stmts)

  -- The loop of query over the statements.
  pub run_all : D → List Bytes → D × List (Report E)
  unfolding after_result
  run_all d [] = (d, [])
  run_all d (stmt ∷ stmts) =
      let rest = run_all (driver.run_statement d stmt).0 stmts in
      after_result stmt stmts (driver.run_statement d stmt).0 rest (driver.run_statement d stmt).1

  -- The end of query: the session of the pool, and the loop on it.
  pub run_from : List Bytes → D ⊎ E → Refusal E ⊎ (D × List (Report E))
  unfolding run_all
  run_from stmts (inl d) = inr (run_all d stmts)
  run_from stmts (inr e) = inl (no_session e)

  -- The write gate in front of `rest`, on the destructive statements of the script.
  pub gated :
      Server
      → Connection
      → List Bytes
      → Refusal E ⊎ (D × List (Report E))
      → Refusal E ⊎ (D × List (Report E))
  unfolding check_write
  gated s conn [] rest = rest
  gated s conn (bad ∷ _) rest =
      elim (check_write E s conn bad) as (λ _. Refusal E ⊎ (D × List (Report E))) [
        | some r ↦ inl r
        | none ↦ rest
      ]

  -- query, on the statements of the script
  pub query_on : D ⊎ E → Server → Connection → List Bytes → Refusal E ⊎ (D × List (Report E))
  unfolding gated run_from
  query_on got s conn [] = inl no_statement
  query_on got s conn (stmt ∷ stmts) =
      gated s conn (destructive conn.engine (stmt ∷ stmts)) (run_from (stmt ∷ stmts) got)

  -- query. `get` is the call of the pool: a session's driver state, or an error. It is made when the
  -- statements are run.
  pub query :
      (get : Connection → Bytes → D ⊎ E) (s : Server) (connection database sql : Bytes)
      → Refusal E ⊎ (D × List (Report E))
  unfolding query_on
  query get s connection database sql =
      elim (lookup s connection) as (λ _. Refusal E ⊎ (D × List (Report E))) [
        | none ↦ inl (unknown_connection connection)
        | some conn ↦ query_on (get conn database) s conn (split conn.engine sql)
      ]
