-- ===== src/Mcp/Query/Gate.antt =====
-- The write gate holds: without both of its halves no destructive statement reaches an engine.
use d9s.Base.{
  ◌≡◌, refl, ap, sym, ◌⊎◌, inl, inr, false, ◌&&◌, List, [], ◌∷◌, ◌++◌, some, Bytes, Bool-cases, All,
  All-append,
}
use mathlib.Core.List.{map}
use mathlib.Core.Path.{subst}
use d9s.Script.Token.{EngineType}
use d9s.Script.Split.{split}
use d9s.Script.Destructive.{destructive, is_destructive}
use d9s.Mcp.Query.{
  Connection, Server, lookup, Refusal, not_writable, check_write, Report, shown, failure, skipped,
  Driver, skip_all, after_result, run_all, run_from, gated, query_on, query,
}

-- A driver that writes down what it is handed.
abbrev pub logged : {D E : Type 0} → Driver D E → Driver (D × List Bytes) E
logged driver = record {
  run_statement = λ d stmt.
      (((driver.run_statement d.0 stmt).0, d.1 ++ stmt ∷ []), (driver.run_statement d.0 stmt).1);
}

abbrev pub IsHarmless : EngineType → Bytes → Type 0
IsHarmless engine stmt = is_destructive engine stmt ≡ false

destructive-nil :
    (engine : EngineType) (stmts : List Bytes)
    → destructive engine stmts ≡ []
    → All (IsHarmless engine) stmts
unfolding destructive
destructive-nil engine [] h = tt
destructive-nil engine (s ∷ stmts) h = elim (Bool-cases (is_destructive engine s)) [
  | inl e ↦ cc (rw e at h)
  | inr e ↦ (e, destructive-nil engine stmts (rw e at h))
]

module _ {D E : Type 0} (driver : Driver D E) where
  after_result-log :
      (P : Bytes → Type 0) (s : Bytes) (stmts : List Bytes) (d : D × List Bytes)
      (rest : (D × List Bytes) × List (Report E)) (r : Bytes ⊎ E)
      → All P d.1
      → All P rest.0.1
      → All P (after_result (logged driver) s stmts d rest r).0.1
  unfolding after_result
  after_result-log P s stmts d rest (inl t) h k = k
  after_result-log P s stmts d rest (inr e) h k = h

  run_all-log :
      (P : Bytes → Type 0) (d : D) (log stmts : List Bytes)
      → All P log
      → All P stmts
      → All P (run_all (logged driver) (d, log) stmts).0.1
  unfolding run_all
  run_all-log P d log [] h k = h
  run_all-log P d log (s ∷ stmts) h k =
      let h' = All-append P log (s ∷ []) h (k.0, tt) in
      after_result-log P s stmts _ _ (driver.run_statement d s).1 h'
        (run_all-log P (driver.run_statement d s).0 (log ++ s ∷ []) stmts h' k.1)

  -- The run of the statements from a state of the driver to another, with its reports: each statement is
  -- run and shown up to the first one that fails, and those behind it are skipped.
  pub data Run : D → List Bytes → D → List (Report E) → Type 0 where
    ended : (d : D) → Run d [] d []
    showed :
        (d d' d'' : D) (s shown_text : Bytes) (stmts : List Bytes) (reports : List (Report E))
        → driver.run_statement d s ≡ (d', inl shown_text)
        → Run d' stmts d'' reports
        → Run d (s ∷ stmts) d'' (shown s shown_text ∷ reports)
    stopped :
        (d d' : D) (s : Bytes) (e : E) (stmts : List Bytes)
        → driver.run_statement d s ≡ (d', inr e)
        → Run d (s ∷ stmts) d' (failure s e ∷ map skipped stmts)

  skip_all-skipped : (stmts : List Bytes) → skip_all driver stmts ≡ map skipped stmts
  unfolding skip_all
  skip_all-skipped [] = refl
  skip_all-skipped (s ∷ stmts) = ap (λ x. skipped s ∷ x) (skip_all-skipped stmts)

  after_result-Run :
      (d d' : D) (s : Bytes) (stmts : List Bytes) (rest : D × List (Report E)) (r : Bytes ⊎ E)
      → driver.run_statement d s ≡ (d', r)
      → Run d' stmts rest.0 rest.1
      → Run d
          (s ∷ stmts)
          (after_result driver s stmts d' rest r).0
          (after_result driver s stmts d' rest r).1
  unfolding after_result
  after_result-Run d d' s stmts rest (inl t) e h = showed d d' rest.0 s t stmts rest.1 e h
  after_result-Run d d' s stmts rest (inr x) e h =
      subst (λ reports. Run d (s ∷ stmts) d' (failure s x ∷ reports)) (sym (skip_all-skipped stmts))
        (stopped d d' s x stmts e)

  run_all-Run :
      (d : D) (stmts : List Bytes)
      → Run d stmts (run_all driver d stmts).0 (run_all driver d stmts).1
  unfolding run_all
  run_all-Run d [] = ended d
  run_all-Run d (s ∷ stmts) =
      after_result-Run d (driver.run_statement d s).0 s stmts _ (driver.run_statement d s).1 refl
        (run_all-Run (driver.run_statement d s).0 stmts)

-- What a caller may rely on: a refusal, for which nothing ran, or a run whose statements all satisfy `P`.
abbrev pub RanOnly :
    {D E : Type 0} → (Bytes → Type 0) → Refusal E ⊎ ((D × List Bytes) × List (Report E)) → Type 0
RanOnly P (inl r) = Unit
RanOnly P (inr x) = All P x.0.1

-- A query that was not refused has run the statements on the session of the pool, and its reports are
-- those of the run.
pub ReportsOn :
    {D E : Type 0} → Driver D E → D ⊎ E → List Bytes → Refusal E ⊎ (D × List (Report E)) → Type 0
ReportsOn driver got stmts (inl r) = Unit
ReportsOn {D} driver got stmts (inr x) = (d : D) × (got ≡ inl d) × Run driver d stmts x.0 x.1

module _ {D E : Type 0} (driver : Driver D E) (s : Server) (conn : Connection) where
  -- `query` behind its lookups and its gate: the pool, and the loop.
  run_from-RanOnly :
      (P : Bytes → Type 0) (stmts : List Bytes) (g : (D × List Bytes) ⊎ E)
      → All P stmts
      → ((d : D × List Bytes) → g ≡ inl d → d.1 ≡ [])
      → RanOnly P (run_from (logged driver) stmts g)
  unfolding run_from
  run_from-RanOnly P stmts (inl d) k fresh =
      run_all-log driver P d.0 d.1 stmts (rw (fresh d refl) tt) k
  run_from-RanOnly P stmts (inr e) k fresh = tt

  gated_closed :
      (b : Bytes) (bad : List Bytes) (rest : Refusal E ⊎ ((D × List Bytes) × List (Report E)))
      → (s.allow_write && conn.allow_write) ≡ false
      → gated (logged driver) s conn (b ∷ bad) rest
        ≡ inl (not_writable b s.allow_write conn.allow_write)
  unfolding gated check_write
  gated_closed b bad rest closed = rw (closed, gated)

  gated-RanOnly :
      (stmts bad : List Bytes) (g : (D × List Bytes) ⊎ E)
      → destructive conn.engine stmts ≡ bad
      → (s.allow_write && conn.allow_write) ≡ false
      → ((d : D × List Bytes) → g ≡ inl d → d.1 ≡ [])
      → RanOnly
          (IsHarmless conn.engine)
          (gated (logged driver) s conn bad (run_from (logged driver) stmts g))
  gated-RanOnly stmts [] g e closed fresh =
      unfold gated in
      run_from-RanOnly (IsHarmless conn.engine) stmts g (destructive-nil conn.engine stmts e) fresh
  gated-RanOnly stmts (b ∷ bad) g e closed fresh =
      subst (RanOnly (IsHarmless conn.engine)) (sym (gated_closed b bad _ closed)) tt

  query_on-RanOnly :
      (stmts : List Bytes) (g : (D × List Bytes) ⊎ E)
      → (s.allow_write && conn.allow_write) ≡ false
      → ((d : D × List Bytes) → g ≡ inl d → d.1 ≡ [])
      → RanOnly (IsHarmless conn.engine) (query_on (logged driver) g s conn stmts)
  unfolding query_on
  query_on-RanOnly [] g closed fresh = tt
  query_on-RanOnly (x ∷ stmts) g closed fresh =
      gated-RanOnly (x ∷ stmts) (destructive conn.engine (x ∷ stmts)) g refl closed fresh

  run_from-ReportsOn :
      (stmts : List Bytes) (g : D ⊎ E) → ReportsOn driver g stmts (run_from driver stmts g)
  unfolding run_from ReportsOn
  run_from-ReportsOn stmts (inl d) = (d, refl, run_all-Run driver d stmts)
  run_from-ReportsOn stmts (inr e) = tt

  gated-cases :
      (bad : List Bytes) (rest : Refusal E ⊎ (D × List (Report E)))
      → (gated driver s conn bad rest ≡ rest)
        ⊎ ((b : Bytes) × (gated driver s conn bad rest
              ≡ inl (not_writable b s.allow_write conn.allow_write)))
  unfolding gated check_write
  gated-cases [] rest = inl refl
  gated-cases (b ∷ bad) rest = elim (Bool-cases (s.allow_write && conn.allow_write)) [
    | inl e ↦ inl (rw (e, gated))
    | inr e ↦ inr (b, rw (e, gated))
  ]

  query_on-ReportsOn :
      (stmts : List Bytes) (g : D ⊎ E) → ReportsOn driver g stmts (query_on driver g s conn stmts)
  unfolding query_on ReportsOn
  query_on-ReportsOn [] g = tt
  query_on-ReportsOn (x ∷ stmts) g =
      elim (gated-cases (destructive conn.engine (x ∷ stmts)) (run_from driver (x ∷ stmts) g)) [
        | inl e ↦ subst (ReportsOn driver g (x ∷ stmts)) (sym e) (run_from-ReportsOn (x ∷ stmts) g)
        | inr e ↦ subst (ReportsOn driver g (x ∷ stmts)) (sym e.1) tt
      ]

query_found :
    {D E : Type 0} (driver : Driver D E) (get : Connection → Bytes → D ⊎ E) (s : Server)
    (conn : Connection) (connection database sql : Bytes)
    → lookup s connection ≡ some conn
    → query driver get s connection database sql
      ≡ query_on driver (get conn database) s conn (split conn.engine sql)
unfolding query
query_found driver get s conn connection database sql found = rw (found, query)

-- With either half of the write gate shut, whatever a script holds, every statement that reaches the
-- engine is harmless: the tool refuses, or it runs statements none of which is destructive.
pub query-RanOnly :
    {D E : Type 0} (driver : Driver D E) (get : Connection → Bytes → (D × List Bytes) ⊎ E)
    (s : Server) (conn : Connection) (connection database sql : Bytes)
    → lookup s connection ≡ some conn
    → (s.allow_write && conn.allow_write) ≡ false
    → ((d : D × List Bytes) → get conn database ≡ inl d → d.1 ≡ [])
    → RanOnly (IsHarmless conn.engine) (query (logged driver) get s connection database sql)
query-RanOnly driver get s conn connection database sql found closed fresh =
    subst (RanOnly (IsHarmless conn.engine))
      (sym (query_found (logged driver) get s conn connection database sql found))
      (query_on-RanOnly driver s conn (split conn.engine sql) (get conn database) closed fresh)

-- A script that is not refused is run on the session of the pool, statement by statement as Split found
-- them, up to the first one that fails: each that ran is reported with its text, the failing one with its
-- error, and every one behind it as skipped, without being run.
pub query-ReportsOn :
    {D E : Type 0} (driver : Driver D E) (get : Connection → Bytes → D ⊎ E) (s : Server)
    (conn : Connection) (connection database sql : Bytes)
    → lookup s connection ≡ some conn
    → ReportsOn driver
        (get conn database)
        (split conn.engine sql)
        (query driver get s connection database sql)
query-ReportsOn driver get s conn connection database sql found =
    subst (ReportsOn driver (get conn database) (split conn.engine sql))
      (sym (query_found driver get s conn connection database sql found))
      (query_on-ReportsOn driver s conn (split conn.engine sql) (get conn database))
