-- ===== src/Schema/Refreshed.antt =====
-- What the map of columns holds after each of its changes.
use d9s.Base.{
  ◌≡◌, refl, true, false, List, [], ◌∷◌, Bytes, equal, equal_iff, equal_refl, arith, Bool-cases,
  if◌then◌else◌, inl, inr,
}
use d9s.Schema.{Entry, empty_entry, is_loading, find, without, put, keep_loading}

-- Behind an entry the map knows no more of its key.
abbrev pub KeysOnce : List (Bytes × Entry) → Type 0
KeysOnce [] = Unit
KeysOnce (p ∷ m) = (find p.0 m ≡ empty_entry) × KeysOnce m

find_hit :
    (key : Bytes) (p : Bytes × Entry) (m : List (Bytes × Entry))
    → equal p.0 key ≡ true
    → find key (p ∷ m) ≡ p.1
unfolding find
find_hit key p m h = rw h

find_miss :
    (key : Bytes) (p : Bytes × Entry) (m : List (Bytes × Entry))
    → equal p.0 key ≡ false
    → find key (p ∷ m) ≡ find key m
unfolding find
find_miss key p m h = rw h

pub find-put : (key : Bytes) (e : Entry) (m : List (Bytes × Entry)) → find key (put key e m) ≡ e
unfolding put find
find-put key e m = rw (equal_refl key)

find-without : (key : Bytes) (m : List (Bytes × Entry)) → find key (without key m) ≡ empty_entry
unfolding without find
find-without key [] = refl
find-without key (p ∷ m) = ground (arith, find-without key m)

other_without :
    (key other : Bytes) (m : List (Bytes × Entry))
    → equal key other ≡ false
    → find other (without key m) ≡ find other m
unfolding without find
other_without key other [] h = refl
other_without key other (p ∷ m) h = elim (Bool-cases (equal p.0 key)) [
  | inl e ↦ ground (arith, other_without key other m h, (equal_iff p.0 key).0 e)
  | inr e ↦ ground (arith, other_without key other m h)
]

pub other_put :
    (key other : Bytes) (e : Entry) (m : List (Bytes × Entry))
    → equal key other ≡ false
    → find other (put key e m) ≡ find other m
unfolding put find
other_put key other e m h = rw (h, other_without key other m h)

equal_swap : (a b : Bytes) → equal a b ≡ false → equal b a ≡ false
equal_swap a b h = ground (arith, equal_iff b a, equal_refl a)

without-KeysOnce : (key : Bytes) (m : List (Bytes × Entry)) → KeysOnce m → KeysOnce (without key m)
unfolding without
without-KeysOnce key [] h = tt
without-KeysOnce key (p ∷ m) h = elim (Bool-cases (equal p.0 key)) [
  | inl e ↦ rw e (without-KeysOnce key m h.1)
  | inr e ↦
      rw e (rw (other_without key p.0 m (equal_swap p.0 key e)) h.0, without-KeysOnce key m h.1)
]

pub put-KeysOnce :
    (key : Bytes) (e : Entry) (m : List (Bytes × Entry)) → KeysOnce m → KeysOnce (put key e m)
unfolding put
put-KeysOnce key e m h = (find-without key m, without-KeysOnce key m h)

-- What is in flight stays, and all else is as if never asked for.
abbrev pub refreshed : Entry → Entry
refreshed e = if is_loading e.state then e else empty_entry

pub find-keep_loading :
    (key : Bytes) (m : List (Bytes × Entry))
    → KeysOnce m
    → find key (keep_loading m) ≡ refreshed (find key m)
unfolding keep_loading find
find-keep_loading key [] h = refl
find-keep_loading key (p ∷ m) h = elim (Bool-cases (is_loading p.1.state)) [
  | inl e ↦ ground (arith, e, find-keep_loading key m h.1)
  | inr e ↦ ground (arith, e, find-keep_loading key m h.1, h.0, (equal_iff p.0 key).0)
]

pub keep_loading-KeysOnce : (m : List (Bytes × Entry)) → KeysOnce m → KeysOnce (keep_loading m)
unfolding keep_loading
keep_loading-KeysOnce [] h = tt
keep_loading-KeysOnce (p ∷ m) h = elim (Bool-cases (is_loading p.1.state)) [
  | inl e ↦ rw e (rw (find-keep_loading p.0 m h.1, h.0) refl, keep_loading-KeysOnce m h.1)
  | inr e ↦ rw e (keep_loading-KeysOnce m h.1)
]
