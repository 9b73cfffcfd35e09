-- ===== src/Tunnel/Recovers.antt =====
-- A tunnel through any sequence of dials, closes and deaths of its clients.
use mathlib.Core.Path.{subst}
use d9s.Base.{
  ℕ, ◌≡◌, refl, sym, ap, ◌∙◌, Bool, true, false, ◌&&◌, ◌||◌, List, [], ◌∷◌, Option, none, some,
  arith, inl, inr, ◌⊎◌, ◌==◌, ==_refl, if◌then◌else◌, Bool-cases,
}
use d9s.Tunnel.{
  Monitored, new_monitored, Dialed, is_closed, through, reconnect, dial_with, dial, close_tunnel,
  is_client, unwatched, monitor_end,
}

abbrev pub is_watched : ℕ → List ℕ → Bool
is_watched c [] = false
is_watched c (x ∷ xs) = x == c || is_watched c xs

-- A step of a tunnel: a dial on what connect returned, where a new client is none of those watched, a
-- close, and the death of a client that is watched.
pub data Step (E : Type 0) : Monitored → Monitored → Type 0 where
  fails : (s : Monitored) (err : E) → Step E s (dial s (inl err)).0
  dials :
      (s : Monitored) (c : ℕ) → is_watched c s.watched ≡ false → Step E s (dial {E = E} s (inr c)).0
  closes : (s : Monitored) (err : ℕ → Option E) → Step E s (close_tunnel s err).0
  dies : (s : Monitored) (c : ℕ) → is_watched c s.watched ≡ true → Step E s (monitor_end c s)

pub data Reach (E : Type 0) : Monitored → Type 0 where
  fresh : Reach E new_monitored
  next : {s t : Monitored} → Reach E s → Step E s t → Reach E t

pub data Steps (E : Type 0) : Monitored → Monitored → Type 0 where
  stay : {s : Monitored} → Steps E s s
  more : {s t u : Monitored} → Step E s t → Steps E t u → Steps E s u

-- The client in use is watched, a closed tunnel has none, and a dropped one has none.
pub record IsSound (s : Monitored) : Type 0 where
  pub watches : (c : ℕ) → is_client s.tunnel.client c ≡ true → is_watched c s.watched ≡ true
  pub ends :
      (c : ℕ) → (is_client s.tunnel.client c && (s.tunnel.closed || s.tunnel.dropped)) ≡ false

watched_without :
    (c d : ℕ) (xs : List ℕ)
    → (d == c) ≡ false
    → is_watched d xs ≡ true
    → is_watched d (unwatched c xs) ≡ true
unfolding unwatched
watched_without c d [] e h = cc
watched_without c d (x ∷ xs) e h = elim (Bool-cases (x == c)) [
  | inl f ↦ rw f (watched_without c d xs e (ground arith))
  | inr f ↦ rw f ground (arith, watched_without c d xs e)
]

not_client :
    (client : Option ℕ) (c d : ℕ)
    → is_client client c ≡ false
    → is_client client d ≡ true
    → (d == c) ≡ false
unfolding is_client
not_client none c d h k = cc
not_client (some x) c d h k = ground arith

monitor_end-IsSound : (s : Monitored) (c : ℕ) → IsSound s → IsSound (monitor_end c s)
unfolding monitor_end is_client
monitor_end-IsSound s c h = ended (is_client s.tunnel.client c) refl
  where
    ended :
        (b : Bool)
        → is_client s.tunnel.client c ≡ b
        → IsSound (record {
          tunnel = if b then record s.tunnel { client = none; dropped = true } else s.tunnel;
          watched = unwatched c s.watched;
        })
    ended true e = record { watches = λ d k. cc; ends = λ d. refl }
    ended false e = record {
      watches =
          λ d k. watched_without c d s.watched (not_client s.tunnel.client c d e k) (h.watches d k);
      ends = h.ends;
    }

module _ {E : Type 0} where
  dial_with-IsSound :
      (s : Monitored) (client : Option ℕ) (got : E ⊎ ℕ)
      → client ≡ s.tunnel.client
      → s.tunnel.closed ≡ false
      → IsSound s
      → IsSound (dial_with s client got).0
  unfolding dial_with reconnect is_client
  dial_with-IsSound s (some c) got e f h = h
  dial_with-IsSound s none (inl err) e f h = h
  dial_with-IsSound s none (inr c) e f h = record {
    watches = λ d k. ground arith;
    ends = λ d. rw f ground arith;
  }

  dial-IsSound : (s : Monitored) (got : E ⊎ ℕ) → IsSound s → IsSound (dial s got).0
  unfolding dial
  dial-IsSound s got h = opened s.tunnel.closed refl
    where
      opened :
          (b : Bool)
          → s.tunnel.closed ≡ b
          → IsSound
              ((if◌then◌else◌ {A = Monitored × Dialed E}) b
                (s, is_closed)
                (dial_with s s.tunnel.client got)).0
      opened true e = h
      opened false e = dial_with-IsSound s s.tunnel.client got refl e h

  close-IsSound : (s : Monitored) (err : ℕ → Option E) → IsSound s → IsSound (close_tunnel s err).0
  unfolding close_tunnel is_client
  close-IsSound s err h = record { watches = λ d k. cc; ends = λ d. refl }

Step-IsSound : {E : Type 0} {s t : Monitored} → Step E s t → IsSound s → IsSound t
Step-IsSound (fails s err) h = dial-IsSound s (inl err) h
Step-IsSound {E = F} (dials s c n) h = dial-IsSound {E = F} s (inr c) h
Step-IsSound (closes s err) h = close-IsSound s err h
Step-IsSound (dies s c k) h = monitor_end-IsSound s c h

Reach-IsSound : {E : Type 0} {s : Monitored} → Reach E s → IsSound s
unfolding is_client
Reach-IsSound fresh = record { watches = λ c h. cc; ends = λ c. refl }
Reach-IsSound (next r q) = Step-IsSound q (Reach-IsSound r)

is_client_self : (c : ℕ) → is_client (some c) c ≡ true
unfolding is_client
is_client_self c = ==_refl c

-- Dials on what connect returned for each of them, errors all.
pub failing : {E : Type 0} → Monitored → List E → Monitored
failing s [] = s
failing s (err ∷ errs) = failing (dial s (inl err)).0 errs

-- A tunnel that waits for a client: it is open and has none.
IsWaiting : Monitored → Type 0
IsWaiting s = (s.tunnel.client ≡ none) × (s.tunnel.closed ≡ false)

no_client :
    {E : Type 0} (s : Monitored) (err : E) (o : Option ℕ)
    → o ≡ none
    → (dial_with s o (inl err)).0 ≡ s
unfolding dial_with reconnect
no_client s err none e = refl
no_client s err (some c) e = cc

dial_failed : {E : Type 0} (s : Monitored) (err : E) → IsWaiting s → (dial s (inl err)).0 ≡ s
unfolding dial IsWaiting
dial_failed s err h =
    ap (λ b. (if b then (s, is_closed) else dial_with s s.tunnel.client (inl err)).0) h.1
    ∙ no_client s err s.tunnel.client h.0

failing-IsWaiting :
    {E : Type 0} (s : Monitored) (errs : List E) → IsWaiting s → IsWaiting (failing s errs)
unfolding failing
failing-IsWaiting s [] h = h
failing-IsWaiting s (err ∷ errs) h =
    failing-IsWaiting (dial s (inl err)).0 errs (subst IsWaiting (sym (dial_failed s err h)) h)

dial-IsWaiting :
    {E : Type 0} (s : Monitored) (d : ℕ) → IsWaiting s → (dial {E = E} s (inr d)).1 ≡ through d
unfolding dial dial_with reconnect IsWaiting
dial-IsWaiting s d h = rw (h.1, h.0) refl

monitor_end-IsWaiting :
    (s : Monitored) (c : ℕ)
    → s.tunnel.client ≡ some c
    → s.tunnel.closed ≡ false
    → IsWaiting (monitor_end c s)
unfolding monitor_end IsWaiting
monitor_end-IsWaiting s c e k = rw (e, is_client_self c) (refl, k)

dial_through :
    {E : Type 0} (s : Monitored) (c : ℕ) (got : E ⊎ ℕ)
    → s.tunnel.client ≡ some c
    → s.tunnel.closed ≡ false
    → (dial s got).1 ≡ through c
unfolding dial dial_with
dial_through s c got e k = rw (e, k) refl

open_client :
    (s : Monitored) (c : ℕ) → IsSound s → s.tunnel.client ≡ some c → s.tunnel.closed ≡ false
open_client s c h e = ground (arith, h.ends c, h.ends c, used)
  where
    used : is_client s.tunnel.client c ≡ true
    used = ap (λ o. is_client o c) e ∙ is_client_self c

-- A client in use of an open tunnel is always watched, so that its death is noticed, and until then every
-- dial goes through it, whatever connect would return. Behind its death dials may fail as often as they
-- like: the next one for which connect returns a client goes through that client.
pub dial-recovers :
    {E : Type 0} {s : Monitored} (c d : ℕ) (got : E ⊎ ℕ) (errs : List E)
    → Reach E s
    → s.tunnel.client ≡ some c
    → (is_watched c s.watched ≡ true)
      × ((dial s got).1 ≡ through c)
      × ((dial {E = E} (failing (monitor_end c s) errs) (inr d)).1 ≡ through d)
dial-recovers {E} {s} c d got errs r e =
    let h = Reach-IsSound r in
    let k = open_client s c h e in
    (
      h.watches c (ap (λ o. is_client o c) e ∙ is_client_self c),
      dial_through s c got e k,
      dial-IsWaiting (failing (monitor_end c s) errs) d
          (failing-IsWaiting (monitor_end c s) errs (monitor_end-IsWaiting s c e k)),
    )

dial_closed :
    {E : Type 0} (s : Monitored) (got : E ⊎ ℕ)
    → s.tunnel.closed ≡ true
    → dial s got ≡ (s, is_closed)
unfolding dial
dial_closed s got h = rw h refl

Step-closed :
    {E : Type 0} {s t : Monitored} → Step E s t → s.tunnel.closed ≡ true → t.tunnel.closed ≡ true
unfolding close_tunnel monitor_end
Step-closed (fails s err) h = ap (λ r. r.0.tunnel.closed) (dial_closed s (inl err) h) ∙ h
Step-closed {E = F} (dials s c n) h =
    ap (λ r. r.0.tunnel.closed) (dial_closed {E = F} s (inr c) h) ∙ h
Step-closed (closes s err) h = refl
Step-closed (dies s c k) h = elim (Bool-cases (is_client s.tunnel.client c)) [
  | inl e ↦ rw e h
  | inr e ↦ rw e h
]

Steps-closed :
    {E : Type 0} {s t : Monitored} → Steps E s t → s.tunnel.closed ≡ true → t.tunnel.closed ≡ true
Steps-closed stay h = h
Steps-closed (more q r) h = Steps-closed r (Step-closed q h)

-- A closed tunnel stays closed: whatever happens behind it, each dial is refused and changes nothing.
pub dial-is_closed :
    {E : Type 0} {s t : Monitored} (got : E ⊎ ℕ)
    → s.tunnel.closed ≡ true
    → Steps E s t
    → dial t got ≡ (t, is_closed)
dial-is_closed {t} got h q = dial_closed t got (Steps-closed q h)
