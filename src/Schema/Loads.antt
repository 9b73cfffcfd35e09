-- ===== src/Schema/Loads.antt =====
-- The cache with the loads that were claimed and have not stored their result yet, in every order of
-- claims, results and refreshes that its mutex admits.
use d9s.Base.{
  ℕ, suc, ◌-◌, ◌≤◌, ◌≡◌, refl, sym, Bool, true, false, List, [], ◌∷◌, Option, none, some, Bytes,
  equal, equal_iff, equal_refl, arith, Bool-cases, if◌then◌else◌, inl, inr, ◌⊎◌, ◌||◌,
}
use d9s.Schema.{
  Entry, Cache, new_cache, loading, is_ready, is_loading, find, put, canonical, claim_tables,
  claim_columns, loaded, load_tables, load_columns, refresh,
}
use d9s.Schema.Refreshed.{
  KeysOnce, find-put, other_put, put-KeysOnce, find-keep_loading, keep_loading-KeysOnce,
}

-- What a load is for: the table listing, or the columns of a table.
abbrev pub Target : Type 0
Target = Option Bytes

abbrev same : Target → Target → Bool
same none none = true
same (some a) (some b) = equal a b
same _ _ = false

-- The table by the key that the cache has for it.
abbrev pub key_of : Target → Target
key_of none = none
key_of (some table) = some (canonical table)

abbrev pub claim : Cache → Target → Cache × Bool
claim c none = claim_tables c
claim c (some table) = claim_columns c table

abbrev pub load {ℓ} : {E : Type ℓ} → Cache → Target → List Bytes ⊎ E → Cache
load c none got = load_tables c got
load c (some table) got = load_columns c table got

-- How often a target is loaded at once.
abbrev pub count : Target → List Target → ℕ
count k [] = 0
count k (t ∷ ts) = if same t k then suc (count k ts) else count k ts

abbrev pub remove_one : Target → List Target → List Target
remove_one k [] = []
remove_one k (t ∷ ts) = if same t k then ts else t ∷ remove_one k ts

pub record System : Type 0 where
  pub cache : Cache
  pub flights : List Target

-- One operation: a claim, which starts a load if it is granted; the end of a load that is in flight,
-- with any result; a refresh.
pub data Step (E : Type 0) : System → System → Type 0 where
  claims :
      (s : System) (t : Target)
      → Step E s (record {
        cache = (claim s.cache t).0;
        flights = if (claim s.cache t).1 then key_of t ∷ s.flights else s.flights;
      })
  finishes :
      (s : System) (t : Target) (got : List Bytes ⊎ E)
      → 1 ≤ count (key_of t) s.flights
      → Step E s (record { cache = load s.cache t got; flights = remove_one (key_of t) s.flights })
  refreshes : (s : System) → Step E s (record s { cache = refresh s.cache })

pub data Reach (E : Type 0) : System → Type 0 where
  fresh : Reach E (record { cache = new_cache; flights = [] })
  step : {s s' : System} → Reach E s → Step E s s' → Reach E s'

-- The entry of a target is marked as loading.
abbrev pub is_marked : Cache → Target → Bool
is_marked c none = is_loading c.tables.state
is_marked c (some key) = is_loading (find key c.cols).state

abbrev pub as_count : Bool → ℕ
as_count true = 1
as_count false = 0

same_refl : (k : Target) → same k k ≡ true
same_refl none = refl
same_refl (some a) = equal_refl a

same_sound : (a b : Target) → same a b ≡ true → a ≡ b
same_sound none none h = refl
same_sound none (some b) h = cc
same_sound (some a) none h = cc
same_sound (some a) (some b) h = rw ((equal_iff a b).0 h) refl

-- A target that is another is so on both sides.
same-false : (k t x : Target) → same x k ≡ false → same k t ≡ true → same x t ≡ false
same-false k t x h e = rw (sym (same_sound k t e)) h

count_removed :
    (k t : Target) (ts : List Target)
    → 1 ≤ count k ts
    → count t (remove_one k ts) ≡ (if same k t then count t ts - 1 else count t ts)
count_removed k t [] h = omega (arith, h)
count_removed k t (x ∷ ts) h = elim (Bool-cases (same x k)) [
  | inl e ↦ rw (e, same_sound x k e) (ground arith)
  | inr e ↦ ground (arith, e, count_removed k t ts, same-false k t x e)
]

put_marked :
    (key other : Bytes) (e : Entry) (m : List (Bytes × Entry))
    → is_loading (find other (put key e m)).state
      ≡ (if equal key other then is_loading e.state else is_loading (find other m).state)
put_marked key other e m = elim (Bool-cases (equal key other)) [
  | inl q ↦ rw (q, sym ((equal_iff key other).0 q), find-put key e m) refl
  | inr q ↦ rw (q, other_put key other e m q) refl
]

load_marked :
    {E : Type 0} (c : Cache) (t k : Target) (got : List Bytes ⊎ E)
    → is_marked (load c t got) k ≡ (if same (key_of t) k then false else is_marked c k)
unfolding load_tables load_columns
load_marked c none none (inl names) = refl
load_marked c none none (inr e) = refl
load_marked c none (some key) got = refl
load_marked c (some table) none got = refl
load_marked c (some table) (some key) (inl names) = put_marked (canonical table) key _ c.cols
load_marked c (some table) (some key) (inr e) = put_marked (canonical table) key _ c.cols

claim_refused : (c : Cache) (t : Target) → (claim c t).1 ≡ false → (claim c t).0 ≡ c
unfolding claim_tables claim_columns
claim_refused c none h = ground arith
claim_refused c (some table) h = ground arith

claim_granted : (c : Cache) (t : Target) → (claim c t).1 ≡ true → is_marked c (key_of t) ≡ false
unfolding claim_tables claim_columns
claim_granted c none h = ground arith
claim_granted c (some table) h = ground arith

claim_marked :
    (c : Cache) (t k : Target)
    → (claim c t).1 ≡ true
    → is_marked (claim c t).0 k ≡ (if same (key_of t) k then true else is_marked c k)
unfolding claim_tables claim_columns
claim_marked c none none h = ground arith
claim_marked c none (some key) h = ground arith
claim_marked c (some table) none h = ground arith
claim_marked c (some table) (some key) h =
    ground (arith, put_marked (canonical table) key (record { names = []; state = loading }) c.cols)

refresh_marked :
    (c : Cache) (k : Target) → KeysOnce c.cols → is_marked (refresh c) k ≡ is_marked c k
unfolding refresh
refresh_marked c none h = ground arith
refresh_marked c (some key) h = ground (arith, find-keep_loading key c.cols h)

claim-KeysOnce : (c : Cache) (t : Target) → KeysOnce c.cols → KeysOnce (claim c t).0.cols
unfolding claim_tables claim_columns
claim-KeysOnce c none h = elim (Bool-cases (is_loading c.tables.state || is_ready c.tables.state)) [
  | inl e ↦ rw e h
  | inr e ↦ rw e h
]
claim-KeysOnce c (some table) h =
    let e = find (canonical table) c.cols in
    elim (Bool-cases (is_loading e.state || is_ready e.state)) [
      | inl q ↦ rw q h
      | inr q ↦
          rw q (put-KeysOnce (canonical table) (record { names = []; state = loading }) c.cols h)
    ]

load-KeysOnce :
    {E : Type 0} (c : Cache) (t : Target) (got : List Bytes ⊎ E)
    → KeysOnce c.cols
    → KeysOnce (load c t got).cols
unfolding load_tables load_columns
load-KeysOnce c none got h = h
load-KeysOnce c (some table) got h = put-KeysOnce (canonical table) (loaded got) c.cols h

refresh-KeysOnce : (c : Cache) → KeysOnce c.cols → KeysOnce (refresh c).cols
unfolding refresh
refresh-KeysOnce c h = keep_loading-KeysOnce c.cols h

abbrev IsCounted : System → Type 0
IsCounted s = (k : Target) → count k s.flights ≡ as_count (is_marked s.cache k)

claim-IsCounted :
    (s : System) (t : Target)
    → IsCounted s
    → (k : Target)
    → count k (if (claim s.cache t).1 then key_of t ∷ s.flights else s.flights)
      ≡ as_count (is_marked (claim s.cache t).0 k)
claim-IsCounted s t h k = elim (Bool-cases (claim s.cache t).1) [
  | inl e ↦
      ground
        (arith, h k, claim_marked s.cache t k e, claim_granted s.cache t e, same_sound (key_of t) k)
  | inr e ↦ rw (e, claim_refused s.cache t e) (h k)
]

finish-IsCounted :
    {E : Type 0} (s : System) (t : Target) (got : List Bytes ⊎ E)
    → 1 ≤ count (key_of t) s.flights
    → IsCounted s
    → (k : Target)
    → count k (remove_one (key_of t) s.flights) ≡ as_count (is_marked (load s.cache t got) k)
finish-IsCounted s t got one h k = ground (
  arith,
  h k,
  count_removed (key_of t) k s.flights one,
  load_marked s.cache t k got,
  same_sound (key_of t) k,
)

abbrev IsSound : System → Type 0
IsSound s = KeysOnce s.cache.cols × IsCounted s

Step-IsSound : {E : Type 0} {s s' : System} → Step E s s' → IsSound s → IsSound s'
Step-IsSound (claims s t) h = (claim-KeysOnce s.cache t h.0, claim-IsCounted s t h.1)
Step-IsSound (finishes s t got one) h =
    (load-KeysOnce s.cache t got h.0, finish-IsCounted s t got one h.1)
Step-IsSound (refreshes s) h =
    (refresh-KeysOnce s.cache h.0, λ k. rw (refresh_marked s.cache k h.0) (h.1 k))

new_unmarked : (k : Target) → is_marked new_cache k ≡ false
unfolding find
new_unmarked none = refl
new_unmarked (some key) = refl

Reach-IsSound : {E : Type 0} {s : System} → Reach E s → IsSound s
Reach-IsSound fresh = (tt, λ k. rw (new_unmarked k) refl)
Reach-IsSound (step r t) = Step-IsSound t (Reach-IsSound r)

-- However claims, results and refreshes follow one another: of each target, the table listing or the
-- columns of one table, there is one load in flight when the cache has it as loading, and none when it
-- does not. So no name is fetched twice at once, and no entry stays loading with nothing in flight.
pub Reach-count :
    {E : Type 0} {s : System} (r : Reach E s) (k : Target)
    → count k s.flights ≡ as_count (is_marked s.cache k)
Reach-count r k = (Reach-IsSound r).1 k
