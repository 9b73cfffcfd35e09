-- ===== src/Complete/Offered.antt =====
-- Which names the popup lists, by their texts.
use d9s.Base.{
  ◌≡◌, ◌≢◌, ◌↔◌, ◌∙◌, ◌<◌, refl, sym, ap, true, false, not, ◌&&◌, ◌||◌, List, [], ◌∷◌, ◌++◌, Bytes,
  arith, inl, inr, Bool-cases, length, drop, equal, equal_iff, to_lower, has_prefix,
  has_prefix-append, append-has_prefix, contains,
}
use d9s.Config.Connection.{contains_text}
use d9s.Complete.Candidates.{is_prefixed, is_contained, rank_candidates, completion_max_items}
use d9s.Complete.Ranked.{is_match, contains_text-rank_candidates}

-- A text stands somewhere in another.
abbrev pub Holds : Bytes → Bytes → Type 0
Holds s sub = (front : Bytes) × (back : Bytes) × (s ≡ front ++ sub ++ back)

contains-Holds : (s sub : Bytes) → contains s sub ≡ true → Holds s sub
unfolding contains
contains-Holds [] sub h = ([], drop (length sub) [], has_prefix-append [] sub h)
contains-Holds (c ∷ s) sub h = elim (Bool-cases (has_prefix (c ∷ s) sub)) [
  | inl e ↦ ([], drop (length sub) (c ∷ s), has_prefix-append (c ∷ s) sub e)
  | inr e ↦
      let (front, back, q) = contains-Holds s sub (rw e at h) in
      (c ∷ front, back, ap (λ t. c ∷ t) q)
]

prefix-contains : (s sub : Bytes) → has_prefix s sub ≡ true → contains s sub ≡ true
unfolding contains
prefix-contains [] sub h = h
prefix-contains (c ∷ s) sub h = ground (arith, h)

append-contains : (front sub back : Bytes) → contains (front ++ sub ++ back) sub ≡ true
unfolding contains
append-contains [] sub back = prefix-contains (sub ++ back) sub (append-has_prefix sub back)
append-contains (c ∷ front) sub back = ground (arith, append-contains front sub back)

Holds-contains : (s sub : Bytes) → Holds s sub → contains s sub ≡ true
Holds-contains s sub (front, back, q) = ap (λ t. contains t sub) q ∙ append-contains front sub back

contains_nil : (s : Bytes) → contains s [] ≡ true
contains_nil s = Holds-contains s [] ([], s, refl)

match_contains :
    (lower b : Bytes) → (is_prefixed lower b || is_contained lower b) ≡ contains (to_lower b) lower
unfolding is_prefixed is_contained
match_contains lower b = elim (Bool-cases (equal lower [])) [
  | inl e ↦
      rw ((equal_iff lower []).0 e) ground
        (arith, contains_nil (to_lower b), prefix-contains (to_lower b) [])
  | inr e ↦ ground (arith, e, prefix-contains (to_lower b) lower)
]

-- What makes a name a candidate: it is one of the names, not empty, and holds the word, both in lower case.
pub record IsOffered (names : List Bytes) (word b : Bytes) : Type 0 where
  pub listed : contains_text names b ≡ true
  pub some_text : b ≢ []
  pub holds : Holds (to_lower b) (to_lower word)

is_match-contains :
    (lower b : Bytes) → is_match lower b ≡ (not (equal b []) && contains (to_lower b) lower)
is_match-contains lower b = ap (λ t. not (equal b []) && t) (match_contains lower b)

offered :
    (names : List Bytes) (word b : Bytes)
    → (contains_text names b && (not (equal b []) && contains (to_lower b) (to_lower word))) ≡ true
    → IsOffered names word b
offered names word b h =
    let text : equal b [] ≡ false = ground arith in
    record {
      listed = ground arith;
      some_text = λ e. ground (arith, text, (equal_iff b []).1 e);
      holds = contains-Holds (to_lower b) (to_lower word) (ground arith);
    }

is_offered :
    (names : List Bytes) (word b : Bytes)
    → IsOffered names word b
    → (contains_text names b && (not (equal b []) && contains (to_lower b) (to_lower word))) ≡ true
is_offered names word b o = elim (Bool-cases (equal b [])) [
  | inl e ↦ absurd (o.some_text ((equal_iff b []).0 e))
  | inr e ↦ rw (o.listed, e, Holds-contains (to_lower b) (to_lower word) o.holds) refl
]

-- Where the popup holds less than 200 candidates, they are the names that hold the word anywhere, both in
-- lower case, and no others; an empty name is never one.
pub rank_candidates-IsOffered :
    (names : List Bytes) (word b : Bytes)
    → length (rank_candidates names word) < completion_max_items
    → (contains_text (rank_candidates names word) b ≡ true) ↔ IsOffered names word b
rank_candidates-IsOffered names word b h =
    let q =
      contains_text-rank_candidates names word b h
      ∙ ap (λ t. contains_text names b && t) (is_match-contains (to_lower word) b) in
    (λ e. offered names word b (sym q ∙ e), λ o. q ∙ is_offered names word b o)
