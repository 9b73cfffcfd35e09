-- ===== src/Tests/McpRuns.antt =====
-- internal/mcp on concrete requests.
use d9s.Base.{
  ℕ, ◌+◌, ◌≡◌, ◌≤◌, ◌<◌, ◌⊎◌, inl, refl, ◌++◌, [], ◌∷◌, some, true, false, Bytes, codes, arith,
  length, take, contains, replace_all, has_prefix, equal,
}
use d9s.Mcp.Cut.{
  cut_bytes, starts_at, marker_for, guard, text, cut_bytes_cases, Guarded, guard-Guarded,
}
use d9s.Mcp.Query.{Connection, Server, lookup, Driver, query}
use d9s.Mcp.Query.Gate.{logged, IsHarmless, RanOnly, ReportsOn, query-RanOnly, query-ReportsOn}
use d9s.Mcp.Redact.{add, scrub}
use d9s.Mcp.Redact.Scrubbed.{IsScrubbable, add_all, scrub-add}
use d9s.Script.Split.{split}
use d9s.Script.Token.{postgres}

hunter-IsScrubbable : IsScrubbable (codes "hunter2")
unfolding contains has_prefix
hunter-IsScrubbable = record {
  not_empty = cc;
  no_open = omega arith;
  no_close = omega arith;
  no_part = refl;
}

scrub-add_example :
    contains
      (scrub (add_all (add [] (codes "hunter2")) (codes "other" ∷ [])) (codes "pw=hunter2"))
      (codes "hunter2")
    ≡ false
scrub-add_example =
    scrub-add [] (codes "other" ∷ []) (codes "pw=hunter2") (codes "hunter2") (omega arith)
      hunter-IsScrubbable

cut_bytes_cases_example :
    (length (cut_bytes (codes "abcdefghijkl") 10).0 ≤ 10)
    × ((length (codes "abcdefghijkl") ≤ 10)
          × (cut_bytes (codes "abcdefghijkl") 10 ≡ (codes "abcdefghijkl", false))
        ⊎ ((k : ℕ) × (k < length (codes "abcdefghijkl"))
            × ((k ≡ 0) ⊎ (starts_at (codes "abcdefghijkl") k ≡ true))
            × (cut_bytes (codes "abcdefghijkl") 10
                ≡ (take k (codes "abcdefghijkl") ++ marker_for 10, true))))
cut_bytes_cases_example = cut_bytes_cases (codes "abcdefghijkl") 10

guard-Guarded_example :
    Guarded
      (codes "hunter2" ∷ [])
      (text (codes "pw hunter2"))
      (guard (codes "hunter2" ∷ []) (text (codes "pw hunter2")))
guard-Guarded_example = guard-Guarded (codes "hunter2" ∷ []) (text (codes "pw hunter2"))

abbrev prod : Connection
prod = record { name = codes "prod"; engine = postgres; allow_write = true }

abbrev server : Server
server = record { conns = prod ∷ []; allow_write = false }

-- A driver that answers every statement with its own text and counts them.
abbrev echo : Driver ℕ Bytes
echo = record { run_statement = λ d stmt. (d + 1, inl stmt) }

prod_found : lookup server (codes "prod") ≡ some prod
unfolding lookup equal
prod_found = refl

query-RanOnly_example : RanOnly (IsHarmless postgres) (
    query
      (logged echo)
      (λ _ _. inl (0, []))
      server
      (codes "prod")
      []
      (codes "select 1; drop table t"))
query-RanOnly_example =
    query-RanOnly echo (λ _ _. inl (0, [])) server prod (codes "prod") []
      (codes "select 1; drop table t") prod_found refl (λ d e. cc)

query-ReportsOn_example :
    ReportsOn echo
      (inl 0)
      (split postgres (codes "select 1; select 2"))
      (query echo (λ _ _. inl 0) server (codes "prod") [] (codes "select 1; select 2"))
query-ReportsOn_example =
    query-ReportsOn echo (λ _ _. inl 0) server prod (codes "prod") [] (codes "select 1; select 2")
      prod_found

scrub_run :
    scrub (add (add [] (codes "hunter2")) (codes "abc")) (codes "pw hunter2hunter2 abc")
    ≡ codes "pw [redacted][redacted] abc"
unfolding scrub add equal replace_all
scrub_run = refl
