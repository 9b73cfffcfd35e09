-- ===== src/Mcp/Opener/Shared.antt =====
-- The tunnels of the connector, across the sessions that it opens.
use d9s.Base.{
  ◌≡◌, refl, sym, ap, ◌∙◌, List, Option, none, some, Bytes, equal, equal_iff, ◌⊎◌, inl, inr,
  Bool-cases,
}
use d9s.Config.Connection.{Ssh, Connection}
use d9s.Mcp.Opener.{
  Parts, find_tunnel, tunnel_or, tunnel_for, dial_through, on_connect, on_driver, on_password,
  open_live,
}

module _ {D T E : Type 0} (parts : Parts D T E) where
  -- A connection keeps its tunnel, and every other one too.
  tunnel_or_keeps :
      (ts : List (Bytes × T)) (name other : Bytes) (ssh : Ssh) (hit : Option T) (t : T)
      → find_tunnel ts name ≡ hit
      → find_tunnel ts other ≡ some t
      → find_tunnel (tunnel_or parts ts name ssh hit).0 other ≡ some t
  unfolding tunnel_or find_tunnel
  tunnel_or_keeps ts name other ssh (some u) t h k = k
  tunnel_or_keeps ts name other ssh none t h k = elim (Bool-cases (equal name other)) [
    | inl e ↦
        let missing : find_tunnel ts other ≡ none =
          ap (λ n. find_tunnel ts n) (sym ((equal_iff name other).0 e)) ∙ h in
        cc
    | inr e ↦ rw e k
  ]

  on_connect_tunnels :
      (ts : List (Bytes × T)) (d : D) (err : Option E) → (on_connect parts ts d err).tunnels ≡ ts
  unfolding on_connect
  on_connect_tunnels ts d none = refl
  on_connect_tunnels ts d (some err) = refl

  dial_through_keeps :
      (ts : List (Bytes × T)) (name other : Bytes) (ssh : Option Ssh) (t : T)
      → find_tunnel ts other ≡ some t
      → find_tunnel (dial_through parts ts name ssh).0 other ≡ some t
  unfolding dial_through tunnel_for
  dial_through_keeps ts name other none t k = k
  dial_through_keeps ts name other (some ssh) t k =
      tunnel_or_keeps ts name other ssh (find_tunnel ts name) t refl k

  on_driver_keeps :
      (ts : List (Bytes × T)) (conn : Connection) (database password other : Bytes) (d : E ⊎ D)
      (t : T)
      → find_tunnel ts other ≡ some t
      → find_tunnel (on_driver parts ts conn database password d).tunnels other ≡ some t
  unfolding on_driver
  on_driver_keeps ts conn database password other (inl err) t k = k
  on_driver_keeps ts conn database password other (inr d) t k =
      ap (λ us. find_tunnel us other)
        (on_connect_tunnels (dial_through parts ts conn.name conn.ssh).0 d _)
      ∙ dial_through_keeps ts conn.name other conn.ssh t k

  on_password_keeps :
      (ts : List (Bytes × T)) (conn : Connection) (database other : Bytes) (password : E ⊎ Bytes)
      (t : T)
      → find_tunnel ts other ≡ some t
      → find_tunnel (on_password parts ts conn database password).tunnels other ≡ some t
  unfolding on_password
  on_password_keeps ts conn database other (inl err) t k = k
  on_password_keeps ts conn database other (inr password) t k =
      on_driver_keeps ts conn database password other (parts.new_driver conn) t k

  -- A tunnel that was raised for a connection stays its tunnel through every open behind it, of that
  -- connection or another, on any database and with any outcome.
  pub open_live-find_tunnel :
      (ts : List (Bytes × T)) (conn : Connection) (database other : Bytes) (t : T)
      → find_tunnel ts other ≡ some t
      → find_tunnel (open_live parts ts conn database).tunnels other ≡ some t
  unfolding open_live
  open_live-find_tunnel ts conn database other t k =
      on_password_keeps ts conn database other (parts.resolve conn.password) t k
