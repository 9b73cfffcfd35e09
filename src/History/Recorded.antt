-- ===== src/History/Recorded.antt =====
-- What Load gives back of what was appended.
use mathlib.Core.Bool.{false≢true}
use mathlib.Core.List.{reverse, reverse-append}
use d9s.Base.{
  ◌≡◌, ◌∙◌, refl, sym, ap, true, false, List, [], ◌∷◌, ◌++◌, Bytes, equal, equal_iff, equal_refl,
  if◌then◌else◌, arith, Bool-cases, inl, inr,
}
use d9s.History.{Entry, is_seen, newest, dedup}

-- The entries whose statement is another.
abbrev pub without : Bytes → List Entry → List Entry
without x [] = []
without x (e ∷ es) = if equal e.statement x then without x es else e ∷ without x es

-- Two lists of statements hold the same ones, but for `x`.
abbrev Agree : Bytes → List Bytes → List Bytes → Type 0
Agree x seen other = (t : Bytes) → equal t x ≡ false → is_seen seen t ≡ is_seen other t

Agree-cons :
    (x y : Bytes) (seen other : List Bytes) → Agree x seen other → Agree x (y ∷ seen) (y ∷ other)
unfolding is_seen
Agree-cons x y seen other h t n = rw (h t n) refl

Agree-left : (x y : Bytes) (seen : List Bytes) → equal y x ≡ true → Agree x (y ∷ seen) seen
unfolding is_seen
Agree-left x y seen h t n = ground (arith, equal_iff y x, equal_iff y t)

newest_known :
    (seen : List Bytes) (e : Entry) (es : List Entry)
    → is_seen seen e.statement ≡ true
    → newest seen (e ∷ es) ≡ newest seen es
unfolding newest
newest_known seen e es h = rw h refl

newest_new :
    (seen : List Bytes) (e : Entry) (es : List Entry)
    → is_seen seen e.statement ≡ false
    → newest seen (e ∷ es) ≡ e ∷ newest (e.statement ∷ seen) es
unfolding newest
newest_new seen e es h = rw h refl

newest_nil : (seen : List Bytes) → newest seen [] ≡ []
unfolding newest
newest_nil seen = refl

-- An entry of the statement `x` leaves no trace but in what is seen.
named_step :
    (x : Bytes) (e : Entry) (es : List Entry) (seen : List Bytes)
    → equal e.statement x ≡ true
    → (next : List Bytes) × Agree x next seen
      × (without x (newest seen (e ∷ es)) ≡ without x (newest next es))
named_step x e es seen h = elim (Bool-cases (is_seen seen e.statement)) [
  | inl q ↦ (seen, λ t n. refl, rw (newest_known seen e es q) refl)
  | inr q ↦
      (e.statement ∷ seen, Agree-left x e.statement seen h, rw (newest_new seen e es q, h) refl)
]

other_step :
    (x : Bytes) (e : Entry) (es : List Entry) (seen other : List Bytes)
    → equal e.statement x ≡ false
    → Agree x seen other
    → ((s o : List Bytes) → Agree x s o → without x (newest s es) ≡ without x (newest o es))
    → without x (newest seen (e ∷ es)) ≡ without x (newest other (e ∷ es))
other_step x e es seen other h k rest = elim (Bool-cases (is_seen seen e.statement)) [
  | inl q ↦
      rw (newest_known seen e es q, newest_known other e es (sym (k e.statement h) ∙ q))
        (rest seen other k)
  | inr q ↦
      rw (newest_new seen e es q, newest_new other e es (sym (k e.statement h) ∙ q), h)
        (ap (λ r. e ∷ r)
          (rest (e.statement ∷ seen) (e.statement ∷ other) (Agree-cons x e.statement seen other k)))
]

-- Where the lists differ in `x` alone, so do the results.
newest-Agree :
    (x : Bytes) (es : List Entry) (seen other : List Bytes)
    → Agree x seen other
    → without x (newest seen es) ≡ without x (newest other es)
newest-Agree x [] seen other h = rw (newest_nil seen, newest_nil other) refl
newest-Agree x (e ∷ es) seen other h = elim (Bool-cases (equal e.statement x)) [
  | inl q ↦
      let left = named_step x e es seen q in
      let right = named_step x e es other q in
      left.2
      ∙ newest-Agree x es left.0 right.0 (λ t n. left.1 t n ∙ h t n ∙ sym (right.1 t n))
      ∙ sym right.2
  | inr q ↦ other_step x e es seen other q h (λ s o a. newest-Agree x es s o a)
]

seen_other :
    (x y : Bytes) (seen : List Bytes)
    → is_seen seen x ≡ true
    → is_seen seen y ≡ false
    → equal y x ≡ false
seen_other x y seen h k = elim (Bool-cases (equal y x)) [
  | inl q ↦ absurd (false≢true (sym k ∙ ap (is_seen seen) ((equal_iff y x).0 q) ∙ h))
  | inr q ↦ q
]

seen_more : (x y : Bytes) (seen : List Bytes) → is_seen seen x ≡ true → is_seen (y ∷ seen) x ≡ true
unfolding is_seen
seen_more x y seen h = ground (arith, h)

without_seen :
    (x : Bytes) (es : List Entry) (seen : List Bytes)
    → is_seen seen x ≡ true
    → without x (newest seen es) ≡ newest seen es
without_seen x [] seen h = rw (newest_nil seen) refl
without_seen x (e ∷ es) seen h = elim (Bool-cases (is_seen seen e.statement)) [
  | inl q ↦ rw (newest_known seen e es q) (without_seen x es seen h)
  | inr q ↦
      rw (newest_new seen e es q, seen_other x e.statement seen h q)
        (ap (λ r. e ∷ r) (without_seen x es (e.statement ∷ seen) (seen_more x e.statement seen h)))
]

seen_one : (x : Bytes) → is_seen (x ∷ []) x ≡ true
unfolding is_seen
seen_one x = ground (arith, equal_refl x)

nothing_seen : (x : Bytes) → is_seen [] x ≡ false
unfolding is_seen
nothing_seen x = refl

pub dedup-append :
    (es : List Entry) (e : Entry) → dedup (es ++ (e ∷ [])) ≡ e ∷ without e.statement (dedup es)
unfolding dedup
dedup-append es e =
    let x = e.statement in
    ap (newest []) (reverse-append es (e ∷ []))
    ∙ newest_new [] e (reverse es) (nothing_seen x)
    ∙ ap (λ r. e ∷ r)
        (sym (without_seen x (reverse es) (x ∷ []) (seen_one x))
          ∙ newest-Agree x (reverse es) (x ∷ []) [] (Agree-left x x [] (equal_refl x)))
