-- ===== src/Base/Text.antt =====
-- Byte strings: a Go string is the list of its bytes. The functions are those of package strings
-- that the program calls.
use Prim.Native.Nat.{ℕ, zero, suc, ◌+◌, ◌-◌, ◌≤◌, ◌<◌}
use Prim.Native.Char.{code}
use Prim.Native.String.{String}
use mathlib.Core.Path.{◌≡◌, refl}
use mathlib.Core.Logic.{◌↔◌, ◌≢◌, inl, inr}
use mathlib.Core.Bool.{Bool, true, false, ◌&&◌, ◌||◌}
use mathlib.Core.List.{List, [], ◌∷◌, ◌++◌, reverse}
use mathlib.Core.Option.{Option, none, some}
use native.Mathlib.Omega.{arith}
use d9s.Base.Tests.{◌==◌, if◌then◌else◌, within, Option-cases}
use d9s.Base.Lists.{take, drop, length, All}

abbrev pub Bytes : Type 0
Bytes = List ℕ

-- The code points of a literal, which are its bytes when it is ASCII.
abbrev pub codes : String → Bytes
codes String.[] = []
codes (String.◌∷◌ c s) = code c ∷ codes s

-- a == b, on strings
unfoldable pub equal : Bytes → Bytes → Bool
equal [] t = elim t [ [] ↦ true | d ∷ u ↦ false ]
equal (c ∷ s) t = elim t [ [] ↦ false | d ∷ u ↦ c == d && equal s u ]

pub equal_refl : (s : Bytes) → equal s s ≡ true
unfolding equal
equal_refl [] = refl
equal_refl (c ∷ s) = ground (arith, equal_refl s)

equal_sound : (s t : Bytes) → equal s t ≡ true → s ≡ t
unfolding equal
equal_sound [] [] h = refl
equal_sound [] (d ∷ u) h = cc
equal_sound (c ∷ s) [] h = cc
equal_sound (c ∷ s) (d ∷ u) h = ground (arith, equal_sound s u)

pub equal_iff : (s t : Bytes) → (equal s t ≡ true) ↔ (s ≡ t)
equal_iff s t = (equal_sound s t, λ e. rw e (equal_refl t))

-- strings.HasPrefix
unfoldable pub has_prefix : Bytes → Bytes → Bool
has_prefix s [] = true
has_prefix [] (p ∷ ps) = false
has_prefix (c ∷ s) (p ∷ ps) = c == p && has_prefix s ps

pub has_prefix-append : (s p : Bytes) → has_prefix s p ≡ true → s ≡ p ++ drop (length p) s
unfolding has_prefix
has_prefix-append s [] h = refl
has_prefix-append [] (p ∷ ps) h = cc
has_prefix-append (c ∷ s) (p ∷ ps) h = ground (arith, has_prefix-append s ps)

pub append-has_prefix : (p s : Bytes) → has_prefix (p ++ s) p ≡ true
unfolding has_prefix
append-has_prefix [] [] = refl
append-has_prefix [] (c ∷ s) = refl
append-has_prefix (x ∷ p) s = ground (arith, append-has_prefix p s)

-- strings.HasSuffix
unfoldable pub has_suffix : Bytes → Bytes → Bool
unfolding has_prefix
has_suffix s p = has_prefix (reverse s) (reverse p)

-- strings.IndexByte; none is -1
unfoldable pub index_byte : Bytes → ℕ → Option ℕ
index_byte [] b = none
index_byte (c ∷ s) b =
    if c == b then some 0 else elim (index_byte s b) [ none ↦ none | some k ↦ some (suc k) ]

-- strings.Index; none is -1
unfoldable pub index : Bytes → Bytes → Option ℕ
unfolding has_prefix
index [] sub = if has_prefix [] sub then some 0 else none
index (c ∷ s) sub =
    if has_prefix (c ∷ s) sub
    then some 0
    else elim (index s sub) [ none ↦ none | some k ↦ some (suc k) ]

-- strings.ContainsRune for an ASCII rune
unfoldable pub contains_byte : Bytes → ℕ → Bool
contains_byte [] b = false
contains_byte (c ∷ s) b = c == b || contains_byte s b

-- one byte of strings.ToLower, on ASCII
unfoldable pub lower_byte : ℕ → ℕ
lower_byte c = if within b'A' b'Z' c then c + 32 else c

-- one byte of strings.ToUpper, on ASCII
unfoldable pub upper_byte : ℕ → ℕ
upper_byte c = if within b'a' b'z' c then c - 32 else c

abbrev pub Lacks : ℕ → Bytes → Type 0
Lacks b = All (λ c. c ≢ b)

-- What a search finds lies in the text.
pub index_byte-lt : (s : Bytes) (b k : ℕ) → index_byte s b ≡ some k → k < length s
unfolding index_byte
index_byte-lt [] b k h = cc
index_byte-lt (c ∷ s) b k h = elim (Option-cases (index_byte s b)) [
  | inl e ↦ ground arith
  | inr (j, e) ↦ ground (arith, index_byte-lt s b j e)
]

pub has_prefix-le : (s p : Bytes) → has_prefix s p ≡ true → length p ≤ length s
unfolding has_prefix
has_prefix-le s [] h = omega arith
has_prefix-le [] (p ∷ ps) h = cc
has_prefix-le (c ∷ s) (p ∷ ps) h = ground (arith, has_prefix-le s ps)

pub index-le : (s sub : Bytes) (k : ℕ) → index s sub ≡ some k → k + length sub ≤ length s
unfolding index
index-le [] [] k h = ground arith
index-le [] (p ∷ ps) k h = cc
index-le (c ∷ s) sub k h = elim (Option-cases (index s sub)) [
  | inl e ↦ ground (arith, has_prefix-le (c ∷ s) sub)
  | inr (j, e) ↦ ground (arith, has_prefix-le (c ∷ s) sub, index-le s sub j e)
]

-- strings.TrimPrefix
unfoldable pub trim_prefix : Bytes → Bytes → Bytes
unfolding has_prefix
trim_prefix s p = if has_prefix s p then drop (length p) s else s

-- strings.TrimSuffix
unfoldable pub trim_suffix : Bytes → Bytes → Bytes
unfolding has_prefix
trim_suffix s p = if has_prefix (reverse s) (reverse p) then take (length s - length p) s else s

-- strings.ReplaceAll of a text that is not empty; `skip` counts the bytes of a match still to pass.
unfoldable pub replace_from : Bytes → Bytes → ℕ → Bytes → Bytes
replace_from old new k [] = []
replace_from old new (suc k) (c ∷ s) = replace_from old new k s
replace_from old new zero (c ∷ s) =
    let hit = has_prefix (c ∷ s) old in
    (if hit then new else c ∷ []) ++ replace_from old new (if hit then length old - 1 else 0) s

unfoldable pub replace_all : Bytes → Bytes → Bytes → Bytes
unfolding replace_from has_prefix
replace_all s old new = replace_from old new 0 s

-- strings.ToLower, on ASCII letters; every other byte stays.
unfoldable pub to_lower : Bytes → Bytes
unfolding lower_byte
to_lower [] = []
to_lower (c ∷ s) = lower_byte c ∷ to_lower s

-- strings.ToUpper, as far as a comparison with an ASCII word can tell. Besides the ASCII letters two
-- letters have an ASCII letter in upper case: U+0131 is I, and U+017F is S.
unfoldable pub to_upper : Bytes → Bytes
unfolding upper_byte
to_upper [] = []
to_upper (c ∷ []) = upper_byte c ∷ []
to_upper (c ∷ d ∷ s) = elim (c == 0xC4 && d == 0xB1) [
  | true ↦ b'I' ∷ to_upper s
  | false ↦ elim (c == 0xC5 && d == 0xBF) [
    | true ↦ b'S' ∷ to_upper s
    | false ↦ upper_byte c ∷ to_upper (d ∷ s)
  ]
]

-- strings.Contains
unfoldable pub contains : Bytes → Bytes → Bool
unfolding has_prefix
contains [] sub = has_prefix [] sub
contains (c ∷ s) sub = has_prefix (c ∷ s) sub || contains s sub

-- One byte of the text, at a match and at none.
pub replace_from_hit :
    (old new : Bytes) (c : ℕ) (s : Bytes)
    → has_prefix (c ∷ s) old ≡ true
    → replace_from old new 0 (c ∷ s) ≡ new ++ replace_from old new (length old - 1) s
unfolding replace_from
replace_from_hit old new c s h = rw h

pub replace_from_miss :
    (old new : Bytes) (c : ℕ) (s : Bytes)
    → has_prefix (c ∷ s) old ≡ false
    → replace_from old new 0 (c ∷ s) ≡ c ∷ replace_from old new 0 s
unfolding replace_from
replace_from_miss old new c s h = rw h

pub replace_from_skip :
    (old new : Bytes) (k c : ℕ) (s : Bytes)
    → replace_from old new (suc k) (c ∷ s) ≡ replace_from old new k s
unfolding replace_from
replace_from_skip old new k c s = refl
