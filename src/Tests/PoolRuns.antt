-- ===== src/Tests/PoolRuns.antt =====
-- The pool of internal/mcp with a connector that numbers its sessions.
use d9s.Base.{ℕ, suc, ◌≡◌, ◌≢◌, refl, [], ◌∷◌, false, Bytes, codes, inl, inr, none, arith}
use d9s.Mcp.Pool.{Connector, Pool, session_key, find_session, new_pool, get}
use d9s.Mcp.Pool.Reuse.{get-get}

abbrev numbering : Connector ℕ ℕ Bytes
numbering = record {
  open_session = λ w name database. (suc w, inr w);
  close_one = λ w s. (w, none);
  close_shared = λ w. (w, none);
}

abbrev one_open : Pool ℕ ℕ
one_open = record { world = 1; sessions = (session_key (codes "prod") [], 0) ∷ []; closed = false }

first_get : get numbering (new_pool 0) (codes "prod") [] ≡ (one_open, inr 0)
unfolding get
first_get = refl

dev_is_other : codes "dev" ≢ codes "prod"
dev_is_other e = cc

get-get_example :
    (get numbering one_open (codes "prod") [] ≡ (one_open, inr 0))
    × (find_session one_open.sessions (session_key (codes "dev") [])
        ≡ find_session [] (session_key (codes "dev") []))
get-get_example =
    get-get numbering (new_pool 0) one_open (codes "prod") [] 0 (codes "dev") [] first_get
      (omega arith) (omega arith) (inl dev_is_other)
