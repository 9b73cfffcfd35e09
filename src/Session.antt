-- ===== src/Session.antt =====
-- internal/session/session.go: a session on a connection, with the tunnel that it raised or borrowed. The
-- resolver, the driver and the tunnel are other packages: what they answer is a record, and what is
-- closed is the list of events.
pub mod Tunnels
use d9s.Base.{
  Bool, true, false, List, [], ◌∷◌, ◌++◌, Option, none, some, Bytes, equal, if◌then◌else◌, ◌⊎◌, inl,
  inr,
}
use d9s.Config.Connection.{Ssh, Connection}

-- secrets.Resolve, db.New, Connect and Close of the driver, sshtunnel.New and Close of the tunnel
pub record World (D T E : Type 0) : Type 0 where
  pub resolve : Bytes → E ⊎ Bytes
  pub new_driver : Connection → E ⊎ D
  pub connect : D → Connection → Bytes → Bytes → Option T → Option E
  pub close_driver : D → Option E
  pub new_tunnel : Ssh → T
  pub close_tunnel : T → Option E

pub data Event (D T : Type 0) : Type 0 where
  driver_closed : D → Event D T
  tunnel_closed : T → Event D T

-- Session
pub record Session (D T : Type 0) : Type 0 where
  pub driver : D
  pub tunnel : Option T
  pub owned : Bool

-- session.Find: the first connection of a name.
unfoldable pub find_connection : List Connection → Bytes → Option Connection
find_connection [] name = none
find_connection (c ∷ cs) name =
    let rest = find_connection cs name in if equal c.name name then some c else rest

-- The first error of the two.
abbrev pub first_of {ℓ} : {E : Type ℓ} → Option E → Option E → Option E
first_of none e = e
first_of (some e) _ = some e

module _ {D T E : Type 0} (world : World D T E) where
  unfoldable pub close_with : D → Bool → Option T → Option E × List (Event D T)
  close_with d true (some t) = (
    first_of (world.close_driver d) (world.close_tunnel t),
    driver_closed d ∷ tunnel_closed t ∷ [],
  )
  close_with d true none = (world.close_driver d, driver_closed d ∷ [])
  close_with d false t = (world.close_driver d, driver_closed d ∷ [])

  -- Close
  unfoldable pub close_session : Session D T → Option E × List (Event D T)
  unfolding close_with
  close_session s = close_with s.driver s.owned s.tunnel

  -- The session with the tunnel that it borrows, or raises when the connection has a bastion.
  unfoldable pub with_tunnel : D → Option Ssh → Option T → Session D T
  with_tunnel d ssh (some t) = record { driver = d; tunnel = some t; owned = false }
  with_tunnel d (some ssh) none = record {
    driver = d;
    tunnel = some (world.new_tunnel ssh);
    owned = true;
  }
  with_tunnel d none none = record { driver = d; tunnel = none; owned = false }

  -- The end of OpenTunnel: a session that does not connect is closed.
  unfoldable pub connected : Session D T → Option E → (E ⊎ Session D T) × List (Event D T)
  unfolding close_session
  connected s none = (inr s, [])
  connected s (some e) = (inl e, (close_session s).1)

  unfoldable pub with_driver :
      Connection → Bytes → Bytes → Option T → E ⊎ D → (E ⊎ Session D T) × List (Event D T)
  unfolding with_tunnel connected
  with_driver conn database password tun (inl e) = (inl e, [])
  with_driver conn database password tun (inr d) =
      let s = with_tunnel d conn.ssh tun in
      connected s (world.connect d conn password database s.tunnel)

  unfoldable pub with_password :
      Connection → Bytes → Option T → E ⊎ Bytes → (E ⊎ Session D T) × List (Event D T)
  unfolding with_driver
  with_password conn database tun (inl e) = (inl e, [])
  with_password conn database tun (inr password) =
      with_driver conn database password tun (world.new_driver conn)

  -- OpenTunnel; `none` for the tunnel is Open.
  unfoldable pub open_tunnel : Connection → Bytes → Option T → (E ⊎ Session D T) × List (Event D T)
  unfolding with_password
  open_tunnel conn database tun = with_password conn database tun (world.resolve conn.password)
