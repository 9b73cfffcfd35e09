-- ===== src/Tunnel.antt =====
-- internal/sshtunnel/tunnel.go: the states of a tunnel. A client is its number, since the code compares
-- the pointers of clients. A mutex makes each operation one step, and the goroutine that watches a client
-- takes one when the client dies.
pub mod Host
pub mod Recovers
use d9s.Base.{
  ℕ, Bool, true, false, List, [], ◌∷◌, Option, none, some, ◌==◌, if◌then◌else◌, ◌⊎◌, inl, inr,
}

pub record Tunnel : Type 0 where
  pub client : Option ℕ
  pub dropped : Bool
  pub closed : Bool

-- New
abbrev pub new_tunnel : Tunnel
new_tunnel = record { client = none; dropped = false; closed = false }

-- What Dial answers before it dials through the client: an error, which says whether the tunnel was closed
-- or had dropped, or the client.
pub data Dialed (E : Type 0) : Type 0 where
  is_closed : Dialed E
  reconnect_failed : E → Dialed E
  connect_failed : E → Dialed E
  through : ℕ → Dialed E

-- A tunnel with the clients that are watched, the last one in front.
pub record Monitored : Type 0 where
  pub tunnel : Tunnel
  pub watched : List ℕ

abbrev pub new_monitored : Monitored
new_monitored = record { tunnel = new_tunnel; watched = [] }

module _ {E : Type 0} where
  -- The part of Dial without a client, on what connect returned.
  unfoldable pub reconnect : Monitored → E ⊎ ℕ → Monitored × Dialed E
  reconnect s (inl err) = (s, if s.tunnel.dropped then reconnect_failed err else connect_failed err)
  reconnect s (inr c) = (
    record {
      tunnel = record s.tunnel { client = some c; dropped = false };
      watched = c ∷ s.watched;
    },
    through c,
  )

  unfoldable pub dial_with : Monitored → Option ℕ → E ⊎ ℕ → Monitored × Dialed E
  unfolding reconnect
  dial_with s (some c) got = (s, through c)
  dial_with s none got = reconnect s got

  -- Dial
  unfoldable pub dial : Monitored → E ⊎ ℕ → Monitored × Dialed E
  unfolding dial_with
  dial s got = if s.tunnel.closed then (s, is_closed) else dial_with s s.tunnel.client got

  unfoldable pub close_client : Option ℕ → (ℕ → Option E) → Option E
  close_client none close_tunnel = none
  close_client (some c) close_tunnel = close_tunnel c

  -- Close, with its error
  unfoldable pub close_tunnel : Monitored → (ℕ → Option E) → Monitored × Option E
  unfolding close_client
  close_tunnel s err = (
    record s { tunnel = record s.tunnel { closed = true; client = none } },
    close_client s.tunnel.client err,
  )

unfoldable pub is_client : Option ℕ → ℕ → Bool
is_client none c = false
is_client (some d) c = d == c

unfoldable pub unwatched : ℕ → List ℕ → List ℕ
unwatched c [] = []
unwatched c (x ∷ xs) = if x == c then unwatched c xs else x ∷ unwatched c xs

-- The end of monitor, when the client has died.
unfoldable pub monitor_end : ℕ → Monitored → Monitored
unfolding is_client unwatched
monitor_end c s = record {
  tunnel =
      if is_client s.tunnel.client c
      then record s.tunnel { client = none; dropped = true }
      else s.tunnel;
  watched = unwatched c s.watched;
}
