-- ===== src/Tests/SessionRuns.antt =====
-- internal/session in a world where nothing connects, with a bastion.
use d9s.Base.{ℕ, ◌≡◌, refl, [], ◌∷◌, none, some, Bytes, codes, inr}
use d9s.Session.{World, open_tunnel}
use d9s.Session.Tunnels.{closed_tunnels, closings, raised_by, open_tunnel-raised}
use d9s.Tests.ConfigRuns.{prod}

-- Drivers and tunnels are numbers, and errors are texts.
abbrev offline : World ℕ ℕ Bytes
offline = record {
  resolve = λ password. inr password;
  new_driver = λ conn. inr 7;
  connect = λ d conn password database tun. some (codes "refused");
  close_driver = λ d. none;
  new_tunnel = λ ssh. 22;
  close_tunnel = λ t. none;
}

open_tunnel-raised_example :
    closed_tunnels (closings offline (open_tunnel offline prod [] none))
    ≡ raised_by offline prod none (inr prod.password)
open_tunnel-raised_example = open_tunnel-raised offline prod [] none

raised_is_closed : closed_tunnels (closings offline (open_tunnel offline prod [] none)) ≡ 22 ∷ []
unfolding open_tunnel
raised_is_closed = refl
