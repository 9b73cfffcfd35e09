-- ===== src/Complete/Ranked.antt =====
-- The order of the candidates that the popup lists, and which names it lists.
use d9s.Base.{
  ℕ, zero, suc, ◌≤◌, ◌<◌, ◌≡◌, refl, sym, ap, ◌∙◌, Bool, true, false, not, ◌&&◌, ◌||◌, List, [],
  ◌∷◌, ◌++◌, Bytes, length, take, arith, inl, inr, Bool-cases, equal, equal_refl, equal_iff,
  to_lower, All, All-append, length-take,
}
use d9s.Config.Connection.{contains_text}
use d9s.Complete.Candidates.{
  less_text, insert_text, sort_texts, pick, is_prefixed, is_contained, rank_candidates,
  completion_max_items,
}

-- Every element stands in a relation to each one behind it.
abbrev pub Pairwise : (Bytes → Bytes → Bool) → List Bytes → Type 0
Pairwise r [] = Unit
Pairwise r (x ∷ xs) = All (λ y. r x y ≡ true) xs × Pairwise r xs

less_text_trans :
    (a b c : Bytes) → less_text a b ≡ true → less_text b c ≡ true → less_text a c ≡ true
unfolding less_text
less_text_trans [] [] c h k = cc
less_text_trans [] (x ∷ b) [] h k = cc
less_text_trans [] (x ∷ b) (y ∷ c) h k = refl
less_text_trans (w ∷ a) [] c h k = cc
less_text_trans (w ∷ a) (x ∷ b) [] h k = cc
less_text_trans (w ∷ a) (x ∷ b) (y ∷ c) h k = ground (arith, less_text_trans a b c)

less_text_total : (a b : Bytes) → less_text a b ≡ false → equal b a ≡ false → less_text b a ≡ true
unfolding less_text equal
less_text_total [] [] h k = cc
less_text_total [] (x ∷ b) h k = cc
less_text_total (w ∷ a) [] h k = refl
less_text_total (w ∷ a) (x ∷ b) h k = ground (arith, less_text_total a b)

contains_text-insert_text :
    (x b : Bytes) (ys : List Bytes)
    → contains_text (insert_text x ys) b ≡ (equal x b || contains_text ys b)
unfolding insert_text contains_text
contains_text-insert_text x b [] = refl
contains_text-insert_text x b (y ∷ ys) = ground (arith, contains_text-insert_text x b ys)

contains_text-sort_texts :
    (b : Bytes) (xs : List Bytes) → contains_text (sort_texts xs) b ≡ contains_text xs b
unfolding sort_texts contains_text
contains_text-sort_texts b [] = refl
contains_text-sort_texts b (x ∷ xs) =
    contains_text-insert_text x b (sort_texts xs)
    ∙ ap (λ c. equal x b || c) (contains_text-sort_texts b xs)

contains_text-append :
    (b : Bytes) (xs ys : List Bytes)
    → contains_text (xs ++ ys) b ≡ (contains_text xs b || contains_text ys b)
unfolding contains_text
contains_text-append b [] ys = refl
contains_text-append b (x ∷ xs) ys = ground (arith, contains_text-append b xs ys)

All-less_text :
    (x y : Bytes) (ys : List Bytes)
    → less_text x y ≡ true
    → All (λ z. less_text y z ≡ true) ys
    → All (λ z. less_text x z ≡ true) ys
All-less_text x y [] h k = tt
All-less_text x y (z ∷ ys) h k = (less_text_trans x y z h k.0, All-less_text x y ys h k.1)

All-insert_text :
    (P : Bytes → Type 0) (x : Bytes) (ys : List Bytes) → P x → All P ys → All P (insert_text x ys)
unfolding insert_text
All-insert_text P x [] p h = (p, tt)
All-insert_text P x (y ∷ ys) p h = elim (Bool-cases (less_text x y)) [
  | inl e ↦ rw e (p, h)
  | inr e ↦ rw e (h.0, All-insert_text P x ys p h.1)
]

insert_text-Pairwise :
    (x : Bytes) (ys : List Bytes)
    → contains_text ys x ≡ false
    → Pairwise less_text ys
    → Pairwise less_text (insert_text x ys)
unfolding insert_text contains_text
insert_text-Pairwise x [] n h = (tt, tt)
insert_text-Pairwise x (y ∷ ys) n h = elim (Bool-cases (less_text x y)) [
  | inl e ↦ rw e ((e, All-less_text x y ys e h.0), h)
  | inr e ↦
      let apart : equal y x ≡ false = ground arith in
      let rest : contains_text ys x ≡ false = ground arith in
      rw e (
        All-insert_text (λ z. less_text y z ≡ true) x ys (less_text_total x y e apart) h.0,
        insert_text-Pairwise x ys rest h.1,
      )
]

-- Names that are all apart.
abbrev Apart : List Bytes → Type 0
Apart [] = Unit
Apart (x ∷ xs) = (contains_text xs x ≡ false) × Apart xs

sort_texts-Pairwise : (xs : List Bytes) → Apart xs → Pairwise less_text (sort_texts xs)
unfolding sort_texts
sort_texts-Pairwise [] h = tt
sort_texts-Pairwise (x ∷ xs) h =
    insert_text-Pairwise x (sort_texts xs) (contains_text-sort_texts x xs ∙ h.0)
      (sort_texts-Pairwise xs h.1)

-- What the loop keeps: the names that are not seen, not empty and pass the test.
contains_text-pick :
    (test : Bytes → Bool) (b : Bytes) (seen names : List Bytes)
    → contains_text (pick test seen names) b
      ≡ (contains_text names b && (test b && (not (equal b []) && not (contains_text seen b))))
unfolding pick contains_text
contains_text-pick test b seen [] = refl
contains_text-pick test b seen (n ∷ names) = elim (Bool-cases (equal n b)) [
  | inl e ↦
      let same : n ≡ b = (equal_iff n b).0 e in
      rw same (elim (Bool-cases (equal b [] || contains_text seen b)) [
        | inl f ↦ rw (f, contains_text-pick test b seen names) ground arith
        | inr f ↦
            rw (f, equal_refl b) ground
              (arith, contains_text-pick test b (b ∷ seen) names, equal_refl b)
      ])
  | inr e ↦ elim (Bool-cases (equal n [] || contains_text seen n)) [
    | inl f ↦ rw (f, e) (contains_text-pick test b seen names)
    | inr f ↦ rw (f, e) ground (arith, contains_text-pick test b (n ∷ seen) names)
  ]
]

seen_now :
    (n : Bytes) (test : Bytes → Bool) (seen names : List Bytes)
    → (contains_text names n && (test n && (not (equal n []) && not (contains_text (n ∷ seen) n))))
      ≡ false
unfolding contains_text
seen_now n test seen names = rw (equal_refl n) ground arith

pick-Apart : (test : Bytes → Bool) (seen names : List Bytes) → Apart (pick test seen names)
unfolding pick
pick-Apart test seen [] = tt
pick-Apart test seen (n ∷ names) = elim (Bool-cases (equal n [] || contains_text seen n)) [
  | inl f ↦ rw f (pick-Apart test seen names)
  | inr f ↦ rw f (elim (Bool-cases (test n)) [
    | inl g ↦ rw g (
      contains_text-pick test n (n ∷ seen) names ∙ seen_now n test seen names,
      pick-Apart test (n ∷ seen) names,
    )
    | inr g ↦ rw g (pick-Apart test (n ∷ seen) names)
  ])
]

-- The order of the popup: the names that start with the word before those that only contain it, and each
-- group in the order of its bytes.
abbrev pub ahead : Bytes → Bytes → Bytes → Bool
ahead lower a b =
    (is_prefixed lower a && not (is_prefixed lower b))
    || (less_text a b
        && ((is_prefixed lower a && is_prefixed lower b)
            || (not (is_prefixed lower a) && not (is_prefixed lower b))))

-- A name can be offered for a word.
abbrev pub is_match : Bytes → Bytes → Bool
is_match lower n = not (equal n []) && (is_prefixed lower n || is_contained lower n)

All-contains_text :
    (P : Bytes → Type 0) (xs : List Bytes)
    → ((b : Bytes) → contains_text xs b ≡ true → P b)
    → All P xs
unfolding contains_text
All-contains_text P [] h = tt
All-contains_text P (x ∷ xs) h = (
  h x (ap (λ c. c || contains_text xs x) (equal_refl x)),
  All-contains_text P xs (λ b e. h b (ground arith)),
)

All-both :
    (P Q R : Bytes → Type 0) (xs : List Bytes)
    → ((b : Bytes) → P b → Q b → R b)
    → All P xs
    → All Q xs
    → All R xs
All-both P Q R [] f h k = tt
All-both P Q R (x ∷ xs) f h k = (f x h.0 k.0, All-both P Q R xs f h.1 k.1)

All-map : (P Q : Bytes → Type 0) (xs : List Bytes) → ((b : Bytes) → P b → Q b) → All P xs → All Q xs
All-map P Q [] f h = tt
All-map P Q (x ∷ xs) f h = (f x h.0, All-map P Q xs f h.1)

one_side :
    (lower : Bytes) (side : Bool) (x y : Bytes)
    → is_prefixed lower x ≡ side
    → is_prefixed lower y ≡ side
    → less_text x y ≡ true
    → ahead lower x y ≡ true
one_side lower true x y h k l = rw (h, k, l) refl
one_side lower false x y h k l = rw (h, k, l) refl

-- A list in the order of its bytes whose names are all on one side is in the order of the popup.
Pairwise-ahead :
    (lower : Bytes) (side : Bool) (xs : List Bytes)
    → All (λ b. is_prefixed lower b ≡ side) xs
    → Pairwise less_text xs
    → Pairwise (ahead lower) xs
Pairwise-ahead lower side [] h k = tt
Pairwise-ahead lower side (x ∷ xs) h k = (
  All-both (λ y. less_text x y ≡ true) (λ y. is_prefixed lower y ≡ side)
      (λ y. ahead lower x y ≡ true) xs (λ y l e. one_side lower side x y h.0 e l) k.0 h.1,
  Pairwise-ahead lower side xs h.1 k.1,
)

-- The two groups, one behind the other.
Pairwise-append :
    (lower : Bytes) (xs ys : List Bytes)
    → All (λ b. is_prefixed lower b ≡ true) xs
    → All (λ b. is_prefixed lower b ≡ false) ys
    → Pairwise (ahead lower) xs
    → Pairwise (ahead lower) ys
    → Pairwise (ahead lower) (xs ++ ys)
Pairwise-append lower [] ys h k p q = q
Pairwise-append lower (x ∷ xs) ys h k p q = (
  All-append (λ y. ahead lower x y ≡ true) xs ys p.0
      (All-map (λ b. is_prefixed lower b ≡ false) (λ y. ahead lower x y ≡ true) ys
        (λ b e. rw (h.0, e) refl) k),
  Pairwise-append lower xs ys h.1 k p.1 q,
)

All-take : (P : Bytes → Type 0) (n : ℕ) (xs : List Bytes) → All P xs → All P (take n xs)
All-take P zero xs h = tt
All-take P (suc n) [] h = tt
All-take P (suc n) (x ∷ xs) h = (h.0, All-take P n xs h.1)

take-Pairwise :
    (r : Bytes → Bytes → Bool) (n : ℕ) (xs : List Bytes) → Pairwise r xs → Pairwise r (take n xs)
take-Pairwise r zero xs h = tt
take-Pairwise r (suc n) [] h = tt
take-Pairwise r (suc n) (x ∷ xs) h =
    (All-take (λ y. r x y ≡ true) n xs h.0, take-Pairwise r n xs h.1)

-- Every name of a sorted group passes its test.
sort_texts-passes :
    (test : Bytes → Bool) (names : List Bytes)
    → All (λ b. test b ≡ true) (sort_texts (pick test [] names))
sort_texts-passes test names =
    All-contains_text (λ b. test b ≡ true) (sort_texts (pick test [] names))
      (λ b e. passed b (
        sym (contains_text-sort_texts b (pick test [] names) ∙ contains_text-pick test b [] names)
        ∙ e))
  where
    passed :
        (b : Bytes)
        → (contains_text names b && (test b && (not (equal b []) && not (contains_text [] b))))
          ≡ true
        → test b ≡ true
    passed b h = ground arith

contained_only : (lower b : Bytes) → is_contained lower b ≡ true → is_prefixed lower b ≡ false
unfolding is_contained
contained_only lower b h = ground arith

-- The candidates of a popup are in its order, each ahead of all behind it, so that none is there twice;
-- there are 200 of them at most.
pub rank_candidates-Pairwise :
    (names : List Bytes) (word : Bytes)
    → Pairwise (ahead (to_lower word)) (rank_candidates names word)
      × (length (rank_candidates names word) ≤ completion_max_items)
unfolding rank_candidates
rank_candidates-Pairwise names word =
    let lower = to_lower word in
    let front = sort_texts (pick (is_prefixed lower) [] names) in
    let back = sort_texts (pick (is_contained lower) [] names) in
    let starts = sort_texts-passes (is_prefixed lower) names in
    let holds =
      All-map (λ b. is_contained lower b ≡ true) (λ b. is_prefixed lower b ≡ false) back
        (contained_only lower) (sort_texts-passes (is_contained lower) names) in
    (
      take-Pairwise (ahead lower) completion_max_items (front ++ back) (
          Pairwise-append lower front back starts holds
            (Pairwise-ahead lower true front starts
              (sort_texts-Pairwise _ (pick-Apart (is_prefixed lower) [] names)))
            (Pairwise-ahead lower false back holds
              (sort_texts-Pairwise _ (pick-Apart (is_contained lower) [] names)))),
      omega (arith, length-take completion_max_items (front ++ back)),
    )

take_short : (n : ℕ) (xs : List Bytes) → length (take n xs) < n → take n xs ≡ xs
take_short zero xs h = ground arith
take_short (suc n) [] h = refl
take_short (suc n) (x ∷ xs) h = ap (λ ys. x ∷ ys) (take_short n xs (omega arith))

in_both :
    (lower : Bytes) (names : List Bytes) (b : Bytes) {x y : Bool}
    → x ≡ (
        contains_text names b
        && (is_prefixed lower b && (not (equal b []) && not (contains_text [] b))))
    → y ≡ (
        contains_text names b
        && (is_contained lower b && (not (equal b []) && not (contains_text [] b))))
    → (x || y) ≡ (contains_text names b && is_match lower b)
unfolding contains_text
in_both lower names b h k = rw (h, k) ground arith

-- Where the popup holds less than 200 candidates, they are the names that start with the word or contain
-- it, without regard to case, and no others; an empty name is never one.
pub contains_text-rank_candidates :
    (names : List Bytes) (word b : Bytes)
    → length (rank_candidates names word) < completion_max_items
    → contains_text (rank_candidates names word) b
      ≡ (contains_text names b && is_match (to_lower word) b)
unfolding rank_candidates
contains_text-rank_candidates names word b h =
    let lower = to_lower word in
    let front = pick (is_prefixed lower) [] names in
    let back = pick (is_contained lower) [] names in
    ap (λ xs. contains_text xs b)
      (take_short completion_max_items (sort_texts front ++ sort_texts back) h)
    ∙ contains_text-append b (sort_texts front) (sort_texts back)
    ∙ in_both lower names b
        (contains_text-sort_texts b front ∙ contains_text-pick (is_prefixed lower) b [] names)
        (contains_text-sort_texts b back ∙ contains_text-pick (is_contained lower) b [] names)
