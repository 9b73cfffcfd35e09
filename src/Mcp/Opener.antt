-- ===== src/Mcp/Opener.antt =====
-- internal/mcp/session.go: the connector that connects for real, with one tunnel for each connection. The
-- resolver, the drivers and the tunnels are other packages: what they answer is a record. A Go map is its
-- list of pairs, each key once.
pub mod Shared
use d9s.Base.{
  Bool, true, false, List, [], ◌∷◌, ◌++◌, Option, none, some, Bytes, equal, if◌then◌else◌, ◌⊎◌, inl,
  inr,
}
use d9s.Config.Connection.{Ssh, Connection}

-- Resolve of the resolver, db.New, Connect and Close of a driver, and sshtunnel.New
pub record Parts (D T E : Type 0) : Type 0 where
  pub resolve : Bytes → E ⊎ Bytes
  pub new_driver : Connection → E ⊎ D
  pub connect : D → Connection → Bytes → Bytes → Option T → Option E
  pub new_tunnel : Ssh → T

-- What open did, next to its answer: the driver that it closed, if any.
pub record Attempt (D T E : Type 0) : Type 0 where
  pub tunnels : List (Bytes × T)
  pub answer : E ⊎ D
  pub closed_driver : Option D

-- o.tunnels[name]
unfoldable pub find_tunnel : {T : Type 0} → List (Bytes × T) → Bytes → Option T
unfolding equal
find_tunnel [] name = none
find_tunnel (p ∷ ts) name = if equal p.0 name then some p.1 else find_tunnel ts name

module _ {D T E : Type 0} (parts : Parts D T E) where
  unfoldable pub tunnel_or : List (Bytes × T) → Bytes → Ssh → Option T → List (Bytes × T) × T
  tunnel_or ts name ssh (some t) = (ts, t)
  tunnel_or ts name ssh none = ((name, parts.new_tunnel ssh) ∷ ts, parts.new_tunnel ssh)

  -- tunnelFor
  unfoldable pub tunnel_for : List (Bytes × T) → Bytes → Ssh → List (Bytes × T) × T
  unfolding tunnel_or find_tunnel
  tunnel_for ts name ssh = tunnel_or ts name ssh (find_tunnel ts name)

  -- The tunnels with the one that the connection dials through, if it has a bastion.
  unfoldable pub dial_through : List (Bytes × T) → Bytes → Option Ssh → List (Bytes × T) × Option T
  unfolding tunnel_for
  dial_through ts name none = (ts, none)
  dial_through ts name (some ssh) = let (us, t) = tunnel_for ts name ssh in (us, some t)

  unfoldable pub on_connect : List (Bytes × T) → D → Option E → Attempt D T E
  on_connect ts d none = record { tunnels = ts; answer = inr d; closed_driver = none }
  on_connect ts d (some err) = record { tunnels = ts; answer = inl err; closed_driver = some d }

  unfoldable pub on_driver : List (Bytes × T) → Connection → Bytes → Bytes → E ⊎ D → Attempt D T E
  unfolding dial_through on_connect
  on_driver ts conn database password (inl err) = record {
    tunnels = ts;
    answer = inl err;
    closed_driver = none;
  }
  on_driver ts conn database password (inr d) =
      let (us, t) = dial_through ts conn.name conn.ssh in
      on_connect us d (parts.connect d conn password database t)

  unfoldable pub on_password : List (Bytes × T) → Connection → Bytes → E ⊎ Bytes → Attempt D T E
  unfolding on_driver
  on_password ts conn database (inl err) = record {
    tunnels = ts;
    answer = inl err;
    closed_driver = none;
  }
  on_password ts conn database (inr password) =
      on_driver ts conn database password (parts.new_driver conn)

  -- open
  unfoldable pub open_live : List (Bytes × T) → Connection → Bytes → Attempt D T E
  unfolding on_password
  open_live ts conn database = on_password ts conn database (parts.resolve conn.password)

-- The first error of closing, which stays.
unfoldable pub keep_first : {E : Type 0} → Option E → Option E → Option E
keep_first none got = got
keep_first (some err) got = some err

-- close: the tunnels that are left, those that were closed, and the first error behind `err`.
unfoldable pub close_tunnels :
    {T E : Type 0}
    → (T → Option E)
    → List (Bytes × T)
    → Option E
    → List (Bytes × T) × List T × Option E
unfolding keep_first
close_tunnels close_one [] err = ([], [], err)
close_tunnels close_one (p ∷ ts) err =
    let (left, closed, first) = close_tunnels close_one ts (keep_first err (close_one p.1)) in
    (left, p.1 ∷ closed, first)
