-- ===== src/Mcp/Pool/Reuse.antt =====
-- A session is opened once for a connection and a database.
use d9s.Base.{
  ◌≡◌, ◌≢◌, ◌∙◌, refl, sym, ap, Bool, true, false, [], ◌∷◌, Option, none, some, Bytes, equal_iff,
  equal_refl, ◌⊎◌, inl, inr, arith, Lacks,
}
use d9s.Mcp.Pool.{
  Connector, Pool, PoolError, session_key, find_session, opened_session, get_found, get_when, get,
}

-- Names without a zero byte make keys that tell both parts.
session_key_injective :
    (n m d e : Bytes)
    → Lacks 0 n
    → Lacks 0 m
    → session_key n d ≡ session_key m e
    → (n ≡ m) × (d ≡ e)
session_key_injective [] [] d e hn hm h = (refl, cc)
session_key_injective [] (y ∷ m) d e hn hm h = absurd (hm.0 (cc))
session_key_injective (x ∷ n) [] d e hn hm h = absurd (hn.0 (cc))
session_key_injective (x ∷ n) (y ∷ m) d e hn hm h =
    let rest = session_key_injective n m d e hn.1 hm.1 (cc) in
    let same : x ≡ y = cc in (rw (same, rest.0) refl, rest.1)

other_key :
    (n d name database : Bytes)
    → Lacks 0 n
    → Lacks 0 name
    → (n ≢ name) ⊎ (d ≢ database)
    → session_key n d ≢ session_key name database
other_key n d name database hn hm (inl o) e = o (session_key_injective n name d database hn hm e).0
other_key n d name database hn hm (inr o) e = o (session_key_injective n name d database hn hm e).1

inr_is : {E S : Type 0} (t s : S) → ◌≡◌ {A = PoolError E ⊎ S} (inr t) (inr s) → t ≡ s
inr_is t s h = cc

inl≢inr : {E S : Type 0} {e : PoolError E} {s : S} → ◌≡◌ {A = PoolError E ⊎ S} (inl e) (inr s) → ⊥
inl≢inr h = cc

module _ {W S E : Type 0} (conn : Connector W S E) where
  -- What a call of get leaves: an error leaves the sessions, and a session stands under its key, with
  -- the others as they were.
  pub record Got (p q : Pool W S) (key : Bytes) (s : S) : Type 0 where
    pub still_open : q.closed ≡ false
    pub stored : find_session q.sessions key ≡ some s
    pub others :
        (other : Bytes)
        → other ≢ key
        → find_session q.sessions other ≡ find_session p.sessions other

  opened_session-Got :
      (p q : Pool W S) (key : Bytes) (r : W × (E ⊎ S)) (s : S)
      → p.closed ≡ false
      → opened_session conn p key r ≡ (q, inr s)
      → Got p q key s
  unfolding opened_session find_session
  opened_session-Got p q key (w, inl e) s o h = absurd (inl≢inr (ap (λ r. r.1) h))
  opened_session-Got p q key (w, inr t) s o h =
      let is : t ≡ s = inr_is t s (ap (λ r. r.1) h) in
      rw (sym (ap (λ r. r.0) h)) (record {
        still_open = o;
        stored = rw (equal_refl key, is) refl;
        others = λ other n. ground (arith, equal_iff key other, n);
      })

  get_found-Got :
      (p q : Pool W S) (name database : Bytes) (o : Option S) (s : S)
      → p.closed ≡ false
      → find_session p.sessions (session_key name database) ≡ o
      → get_found conn p name database o ≡ (q, inr s)
      → Got p q (session_key name database) s
  unfolding get_found
  get_found-Got p q name database (some t) s o f h =
      let is : t ≡ s = inr_is t s (ap (λ r. r.1) h) in
      rw (sym (ap (λ r. r.0) h))
        (record { still_open = o; stored = f ∙ ap some is; others = λ other n. refl })
  get_found-Got p q name database none s o f h =
      opened_session-Got p q (session_key name database) (conn.open_session p.world name database) s
        o h

  get_when-Got :
      (p q : Pool W S) (name database : Bytes) (b : Bool) (s : S)
      → p.closed ≡ b
      → get_when conn p name database b ≡ (q, inr s)
      → Got p q (session_key name database) s
  unfolding get_when
  get_when-Got p q name database true s e h = absurd (inl≢inr (ap (λ r. r.1) h))
  get_when-Got p q name database false s e h = get_found-Got p q name database _ s e refl h

  get_again :
      (q : Pool W S) (name database : Bytes) (s : S)
      → q.closed ≡ false
      → find_session q.sessions (session_key name database) ≡ some s
      → get conn q name database ≡ (q, inr s)
  unfolding get get_when get_found
  get_again q name database s o f = rw (o, f) refl

  -- Once get has answered with a session, it answers the same connection and database with the same
  -- session and changes nothing, so the connector opens no other; and for any other connection or
  -- database, when the names of the two connections hold no zero byte, the pool has the session, or
  -- none, that it had before.
  pub get-get :
      (p q : Pool W S) (name database : Bytes) (s : S) (n d : Bytes)
      → get conn p name database ≡ (q, inr s)
      → Lacks 0 name
      → Lacks 0 n
      → (n ≢ name) ⊎ (d ≢ database)
      → (get conn q name database ≡ (q, inr s))
        × (find_session q.sessions (session_key n d) ≡ find_session p.sessions (session_key n d))
  unfolding get
  get-get p q name database s n d h hn hm o =
      let g = get_when-Got p q name database p.closed s refl h in
      (
        get_again q name database s g.still_open g.stored,
        g.others (session_key n d) (other_key n d name database hm hn o),
      )
