-- ===== src/Session/Tunnels.antt =====
-- Who closes a tunnel.
use d9s.Base.{◌≡◌, refl, List, [], ◌∷◌, ◌++◌, Option, none, some, Bytes, ◌⊎◌, inl, inr}
use d9s.Config.Connection.{Ssh, Connection}
use d9s.Session.{
  World, Event, driver_closed, tunnel_closed, Session, close_session, with_tunnel, connected,
  with_driver, with_password, open_tunnel,
}

-- The tunnels closed by a list of events.
abbrev pub closed_tunnels : {D T : Type 0} → List (Event D T) → List T
closed_tunnels [] = []
closed_tunnels (driver_closed d ∷ es) = closed_tunnels es
closed_tunnels (tunnel_closed t ∷ es) = t ∷ closed_tunnels es

-- The tunnel that a session raises for itself, by the bastion and the tunnel that it is given.
abbrev pub raised : {D T E : Type 0} → World D T E → Option Ssh → Option T → List T
raised w ssh (some t) = []
raised w none none = []
raised w (some b) none = w.new_tunnel b ∷ []

-- None before there is a driver,
abbrev pub raised_with : {D T E : Type 0} → World D T E → Option Ssh → Option T → E ⊎ D → List T
raised_with w ssh tun (inl e) = []
raised_with w ssh tun (inr d) = raised w ssh tun

-- and none before there is a password.
abbrev pub raised_by : {D T E : Type 0} → World D T E → Connection → Option T → E ⊎ Bytes → List T
raised_by w conn tun (inl e) = []
raised_by w conn tun (inr password) = raised_with w conn.ssh tun (w.new_driver conn)

-- What opening and then closing a session closes of tunnels: the events of OpenTunnel, and those of Close
-- when there is a session.
abbrev pub closings :
    {D T E : Type 0} → World D T E → (E ⊎ Session D T) × List (Event D T) → List (Event D T)
closings w (inl e, es) = es
closings w (inr s, es) = es ++ (close_session w s).1

module _ {D T E : Type 0} (w : World D T E) where
  connected-raised :
      (d : D) (ssh : Option Ssh) (tun : Option T) (o : Option E)
      → closed_tunnels (closings w (connected w (with_tunnel w d ssh tun) o)) ≡ raised w ssh tun
  unfolding connected with_tunnel close_session
  connected-raised d ssh (some t) none = refl
  connected-raised d ssh (some t) (some e) = refl
  connected-raised d (some b) none none = refl
  connected-raised d (some b) none (some e) = refl
  connected-raised d none none none = refl
  connected-raised d none none (some e) = refl

  with_driver-raised :
      (conn : Connection) (database password : Bytes) (tun : Option T) (o : E ⊎ D)
      → closed_tunnels (closings w (with_driver w conn database password tun o))
        ≡ raised_with w conn.ssh tun o
  unfolding with_driver
  with_driver-raised conn database password tun (inl e) = refl
  with_driver-raised conn database password tun (inr d) =
      connected-raised d conn.ssh tun
        (w.connect d conn password database (with_tunnel w d conn.ssh tun).tunnel)

  with_password-raised :
      (conn : Connection) (database : Bytes) (tun : Option T) (o : E ⊎ Bytes)
      → closed_tunnels (closings w (with_password w conn database tun o)) ≡ raised_by w conn tun o
  unfolding with_password
  with_password-raised conn database tun (inl e) = refl
  with_password-raised conn database tun (inr password) =
      with_driver-raised conn database password tun (w.new_driver conn)

  -- Of the tunnels, a session that is opened, and closed if it came to be, closes the one that it raised
  -- itself, once, whether or not it connects, and no other: a borrowed tunnel stays open. It raises
  -- one when it is given none, the connection has a bastion, and the password and the driver are there.
  pub open_tunnel-raised :
      (conn : Connection) (database : Bytes) (tun : Option T)
      → closed_tunnels (closings w (open_tunnel w conn database tun))
        ≡ raised_by w conn tun (w.resolve conn.password)
  unfolding open_tunnel
  open_tunnel-raised conn database tun =
      with_password-raised conn database tun (w.resolve conn.password)
