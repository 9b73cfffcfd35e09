-- ===== src/Mcp/Pool.antt =====
-- The pool of internal/mcp/session.go. The connector is its interface: it opens and closes over a state of
-- its own. The mutex makes each operation one step; a Go map is its list of pairs.
pub mod Reuse
use d9s.Base.{
  Bool, true, false, List, [], ◌∷◌, ◌++◌, Option, none, some, Bytes, equal, if◌then◌else◌, ◌⊎◌, inl,
  inr,
}

-- connector, with the close of a session
pub record Connector (W S E : Type 0) : Type 0 where
  pub open_session : W → Bytes → Bytes → W × (E ⊎ S)
  pub close_one : W → S → W × Option E
  pub close_shared : W → W × Option E

pub record Pool (W S : Type 0) : Type 0 where
  pub world : W
  pub sessions : List (Bytes × S)
  pub closed : Bool

-- The error of get: errPoolClosed, or that of the connector
pub data PoolError (E : Type 0) : Type 0 where
  pool_closed : PoolError E
  not_opened : E → PoolError E

-- The key of a connection and a database: a zero byte stands between.
abbrev pub session_key : Bytes → Bytes → Bytes
session_key name database = name ++ (0 ∷ database)

-- p.sessions[key]
unfoldable pub find_session : {S : Type 0} → List (Bytes × S) → Bytes → Option S
find_session [] key = none
find_session (p ∷ m) key = if equal p.0 key then some p.1 else find_session m key

-- newPool
abbrev pub new_pool : {W S : Type 0} → W → Pool W S
new_pool w = record { world = w; sessions = []; closed = false }

module _ {W S E : Type 0} (conn : Connector W S E) where
  -- get behind the call of the connector
  unfoldable pub opened_session : Pool W S → Bytes → W × (E ⊎ S) → Pool W S × (PoolError E ⊎ S)
  opened_session p key (w, inl e) = (record p { world = w }, inl (not_opened e))
  opened_session p key (w, inr s) =
      (record p { world = w; sessions = (key, s) ∷ p.sessions }, inr s)

  unfoldable pub get_found : Pool W S → Bytes → Bytes → Option S → Pool W S × (PoolError E ⊎ S)
  unfolding opened_session
  get_found p name database (some s) = (p, inr s)
  get_found p name database none =
      opened_session p (session_key name database) (conn.open_session p.world name database)

  -- The guard of get, on whether the pool is closed.
  unfoldable pub get_when : Pool W S → Bytes → Bytes → Bool → Pool W S × (PoolError E ⊎ S)
  unfolding get_found find_session
  get_when p name database true = (p, inl pool_closed)
  get_when p name database false =
      get_found p name database (find_session p.sessions (session_key name database))

  -- get
  unfoldable pub get : Pool W S → Bytes → Bytes → Pool W S × (PoolError E ⊎ S)
  unfolding get_when
  get p name database = get_when p name database p.closed

  -- The loop of close over the sessions, with the first error.
  unfoldable pub close_each : W → List (Bytes × S) → Option E → W × Option E
  close_each w [] err = (w, err)
  close_each w (p ∷ m) err =
      let (w', e) = conn.close_one w p.1 in
      close_each w' m (elim err [ some x ↦ some x | none ↦ e ])

  -- close
  unfoldable pub close_pool : Pool W S → Pool W S × Option E
  unfolding close_each
  close_pool p =
      let (w, err) = close_each p.world p.sessions none in
      let (w', e) = conn.close_shared w in
      (record { world = w'; sessions = []; closed = true }, elim err [ some x ↦ some x | none ↦ e ])
