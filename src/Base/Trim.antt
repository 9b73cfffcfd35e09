-- ===== src/Base/Trim.antt =====
-- strings.TrimSpace. Besides the six ASCII blanks it removes the blanks of Unicode, which are two
-- or three bytes of UTF-8 each.
use Prim.Native.Nat.{ℕ}
use mathlib.Core.Path.{◌≡◌, refl, sym, ap, ◌∙◌, subst}
use mathlib.Core.Logic.{inl, inr}
use mathlib.Core.Bool.{Bool, true, false, ◌&&◌, ◌||◌}
use mathlib.Core.List.{List, [], ◌∷◌, ◌++◌, reverse, reverse-append, reverse-reverse}
use native.Mathlib.Omega.{arith}
use d9s.Base.Tests.{◌==◌, if◌then◌else◌, within, Bool-cases}
use d9s.Base.Text.{Bytes, codes}

-- the ASCII blanks of unicode.IsSpace
abbrev pub is_blank : ℕ → Bool
is_blank c = within 9 13 c || c == 32

-- U+0085 and U+00A0
abbrev is_blank2 : ℕ → ℕ → Bool
is_blank2 a b = a == 0xC2 && (b == 0x85 || b == 0xA0)

-- U+1680, U+2000 to U+200A, U+2028, U+2029, U+202F, U+205F and U+3000
abbrev is_blank3 : ℕ → ℕ → ℕ → Bool
is_blank3 a b c =
    a == 0xE1 && b == 0x9A && c == 0x80
    || a == 0xE2 && b == 0x80 && (within 0x80 0x8A c || c == 0xA8 || c == 0xA9 || c == 0xAF)
    || a == 0xE2 && b == 0x81 && c == 0x9F
    || a == 0xE3 && b == 0x80 && c == 0x80

-- Removes blanks from the front, where `two` and `three` tell the blanks of several bytes.
module _ (two : ℕ → ℕ → Bool) (three : ℕ → ℕ → ℕ → Bool) where
  pub trim_front : Bytes → Bytes
  trim_front [] = []
  trim_front (a ∷ []) = if is_blank a then [] else a ∷ []
  trim_front (a ∷ b ∷ []) = elim (is_blank a) [
    | true ↦ trim_front (b ∷ [])
    | false ↦ if two a b then [] else a ∷ b ∷ []
  ]
  trim_front (a ∷ b ∷ c ∷ s) = elim (is_blank a) [
    | true ↦ trim_front (b ∷ c ∷ s)
    | false ↦ elim (two a b) [
      | true ↦ trim_front (c ∷ s)
      | false ↦ elim (three a b c) [ true ↦ trim_front s | false ↦ a ∷ b ∷ c ∷ s ]
    ]
  ]

  -- No blank stands in front.
  pub NoFront : Bytes → Type 0
  NoFront [] = Unit
  NoFront (a ∷ []) = is_blank a ≡ false
  NoFront (a ∷ b ∷ []) = (is_blank a ≡ false) × (two a b ≡ false)
  NoFront (a ∷ b ∷ c ∷ s) = (is_blank a ≡ false) × (two a b ≡ false) × (three a b c ≡ false)

  trim_front-NoFront : (s : Bytes) → NoFront (trim_front s)
  unfolding trim_front NoFront
  trim_front-NoFront [] = tt
  trim_front-NoFront (a ∷ []) = ground arith
  trim_front-NoFront (a ∷ b ∷ []) = ground (arith, trim_front-NoFront (b ∷ []))
  trim_front-NoFront (a ∷ b ∷ c ∷ s) =
      ground
        (arith, trim_front-NoFront (b ∷ c ∷ s), trim_front-NoFront (c ∷ s), trim_front-NoFront s)

  trim_front_fixed : (s : Bytes) → NoFront s → trim_front s ≡ s
  unfolding trim_front NoFront
  trim_front_fixed [] h = refl
  trim_front_fixed (a ∷ []) h = ground arith
  trim_front_fixed (a ∷ b ∷ []) h = ground arith
  trim_front_fixed (a ∷ b ∷ c ∷ s) h = ground arith

  NoFront-append_left : (p q : Bytes) → NoFront (p ++ q) → NoFront p
  unfolding NoFront
  NoFront-append_left [] q h = tt
  NoFront-append_left (a ∷ []) [] h = h
  NoFront-append_left (a ∷ []) (b ∷ []) h = h.0
  NoFront-append_left (a ∷ []) (b ∷ c ∷ q) h = h.0
  NoFront-append_left (a ∷ b ∷ []) [] h = h
  NoFront-append_left (a ∷ b ∷ []) (c ∷ q) h = (h.0, h.1)
  NoFront-append_left (a ∷ b ∷ c ∷ s) q h = h

  -- What is trimmed off is a front part.
  trim_front_slice : (s : Bytes) → (p : Bytes) × (s ≡ p ++ trim_front s)
  unfolding trim_front
  trim_front_slice [] = ([], refl)
  trim_front_slice (a ∷ []) = elim (Bool-cases (is_blank a)) [
    | inl e ↦ (a ∷ [], ground arith)
    | inr e ↦ ([], ground arith)
  ]
  trim_front_slice (a ∷ b ∷ []) = elim (Bool-cases (is_blank a)) [
    | inl e ↦ let (p, h) = trim_front_slice (b ∷ []) in (a ∷ p, ground arith)
    | inr e ↦ elim (Bool-cases (two a b)) [
      | inl f ↦ (a ∷ b ∷ [], ground arith)
      | inr f ↦ ([], ground arith)
    ]
  ]
  trim_front_slice (a ∷ b ∷ c ∷ s) = elim (Bool-cases (is_blank a)) [
    | inl e ↦ let (p, h) = trim_front_slice (b ∷ c ∷ s) in (a ∷ p, ground arith)
    | inr e ↦ elim (Bool-cases (two a b)) [
      | inl f ↦ let (p, h) = trim_front_slice (c ∷ s) in (a ∷ b ∷ p, ground arith)
      | inr f ↦ elim (Bool-cases (three a b c)) [
        | inl g ↦ let (p, h) = trim_front_slice s in (a ∷ b ∷ c ∷ p, ground arith)
        | inr g ↦ ([], ground arith)
      ]
    ]
  ]

abbrev trim_left : Bytes → Bytes
trim_left = trim_front is_blank2 is_blank3

-- From the back the same blanks are read in reverse.
abbrev trim_back : Bytes → Bytes
trim_back = trim_front (λ a b. is_blank2 b a) (λ a b c. is_blank3 c b a)

abbrev trim_right : Bytes → Bytes
trim_right s = reverse (trim_back (reverse s))

trim_right_slice : (s : Bytes) → (q : Bytes) × (s ≡ trim_right s ++ q)
trim_right_slice s =
    let (q, k) = trim_front_slice (λ a b. is_blank2 b a) (λ a b c. is_blank3 c b a) (reverse s) in
    (reverse q, sym (reverse-reverse s) ∙ ap reverse k ∙ reverse-append q (trim_back (reverse s)))

-- strings.TrimSpace
unfoldable pub trim_space : Bytes → Bytes
unfolding trim_front
trim_space s = trim_right (trim_left s)

-- A text that TrimSpace leaves alone.
abbrev pub IsTrimmed : Bytes → Type 0
IsTrimmed s = trim_space s ≡ s

-- The text is a front part, the trimmed text and a back part.
pub trim_space_slice : (s : Bytes) → (p : Bytes) × (q : Bytes) × (s ≡ p ++ (trim_space s ++ q))
unfolding trim_space
trim_space_slice s =
    let (p, h) = trim_front_slice is_blank2 is_blank3 s in
    let (q, k) = trim_right_slice (trim_left s) in (p, q, h ∙ ap (λ r. p ++ r) k)

NoFront-trim_right :
    (s : Bytes) → NoFront is_blank2 is_blank3 s → NoFront is_blank2 is_blank3 (trim_right s)
NoFront-trim_right s h =
    let (q, k) = trim_right_slice s in
    NoFront-append_left is_blank2 is_blank3 (trim_right s) q
      (subst (NoFront is_blank2 is_blank3) k h)

trim_right_idem : (s : Bytes) → trim_right (trim_right s) ≡ trim_right s
trim_right_idem s =
    ap (λ r. reverse (trim_back r)) (reverse-reverse (trim_back (reverse s)))
    ∙ ap reverse (trim_front_fixed _ _ (trim_back (reverse s)) (trim_front-NoFront _ _ (reverse s)))

pub trim_space-IsTrimmed : (s : Bytes) → IsTrimmed (trim_space s)
unfolding trim_space
trim_space-IsTrimmed s =
    ap trim_right
      (trim_front_fixed _ _ _ (NoFront-trim_right (trim_left s) (trim_front-NoFront _ _ s)))
    ∙ trim_right_idem (trim_left s)

trim_space_example : trim_space (codes " \tab c\n ") ≡ codes "ab c"
unfolding trim_space
trim_space_example = refl

-- The field read so far, if it holds a byte, in front of what follows.
abbrev field_before : Bytes → List Bytes → List Bytes
field_before [] fs = fs
field_before (c ∷ s) fs = (c ∷ s) ∷ fs

-- strings.Fields, with the field read so far
fields_from : Bytes → Bytes → List Bytes
fields_from cur [] = field_before cur []
fields_from cur (a ∷ []) = field_before (if is_blank a then cur else cur ++ a ∷ []) []
fields_from cur (a ∷ b ∷ []) = elim (is_blank a) [
  | true ↦ field_before cur (fields_from [] (b ∷ []))
  | false ↦ elim (is_blank2 a b) [
    | true ↦ field_before cur []
    | false ↦ fields_from (cur ++ a ∷ []) (b ∷ [])
  ]
]
fields_from cur (a ∷ b ∷ c ∷ s) = elim (is_blank a) [
  | true ↦ field_before cur (fields_from [] (b ∷ c ∷ s))
  | false ↦ elim (is_blank2 a b) [
    | true ↦ field_before cur (fields_from [] (c ∷ s))
    | false ↦ elim (is_blank3 a b c) [
      | true ↦ field_before cur (fields_from [] s)
      | false ↦ fields_from (cur ++ a ∷ []) (b ∷ c ∷ s)
    ]
  ]
]

-- strings.Fields
unfoldable pub fields : Bytes → List Bytes
unfolding fields_from
fields = fields_from []
