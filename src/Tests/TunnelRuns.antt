-- ===== src/Tests/TunnelRuns.antt =====
-- internal/sshtunnel at concrete inputs.
use d9s.Base.{◌≡◌, refl, true, some, Bytes, codes, inl, inr, List, [], ◌∷◌}
use d9s.Tunnel.{Monitored, new_monitored, through, dial, dial_with, reconnect, monitor_end}
use d9s.Tunnel.Recovers.{is_watched, fresh, next, dials, failing, dial-recovers}

abbrev seven : Monitored
seven = (dial {E = Bytes} new_monitored (inr 7)).0

seven_client : seven.tunnel.client ≡ some 7
unfolding dial dial_with reconnect
seven_client = refl

abbrev refusals : List Bytes
refusals = codes "refused" ∷ codes "timeout" ∷ []

dial-recovers_example :
    (is_watched 7 seven.watched ≡ true)
    × ((dial seven (inl (codes "refused"))).1 ≡ through 7)
    × ((dial {E = Bytes} (failing (monitor_end 7 seven) refusals) (inr 8)).1 ≡ through 8)
dial-recovers_example =
    dial-recovers 7 8 (inl (codes "refused")) refusals (next fresh (dials new_monitored 7 refl))
      seven_client
