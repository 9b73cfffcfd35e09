-- ===== src/Meta/Argument.antt =====
-- The argument of a command.
use d9s.Base.{
  ℕ, ◌≡◌, refl, false, [], ◌∷◌, ◌++◌, some, Bytes, codes, ◌==◌, if◌then◌else◌, ==_iff, has_prefix,
  arith, Bool-cases, inl, inr,
}
use d9s.Meta.{push, quoted_name, read_arg}

-- A name as it is written between quotes: each quote of it twice.
abbrev pub double_quotes : Bytes → Bytes
double_quotes [] = []
double_quotes (c ∷ s) = if c == b'"' then b'"' ∷ b'"' ∷ double_quotes s else c ∷ double_quotes s

quoted_name_byte :
    (c : ℕ) (s : Bytes) → (c == b'"') ≡ false → quoted_name (c ∷ s) ≡ push c (quoted_name s)
unfolding quoted_name
quoted_name_byte c [] h = rw h refl
quoted_name_byte c (d ∷ s) h = rw h refl

quoted_name_doubled : (s : Bytes) → quoted_name (b'"' ∷ b'"' ∷ s) ≡ push b'"' (quoted_name s)
unfolding quoted_name
quoted_name_doubled s = refl

quoted_name_end :
    (tail : Bytes)
    → has_prefix tail (codes "\"") ≡ false
    → quoted_name (b'"' ∷ tail) ≡ some ([], tail)
unfolding quoted_name has_prefix
quoted_name_end [] h = refl
quoted_name_end (d ∷ s) h = ground arith

quoted_name-double_quotes :
    (name tail : Bytes)
    → has_prefix tail (codes "\"") ≡ false
    → quoted_name (double_quotes name ++ (b'"' ∷ tail)) ≡ some (name, tail)
quoted_name-double_quotes [] tail h = quoted_name_end tail h
quoted_name-double_quotes (c ∷ name) tail h = elim (Bool-cases (c == b'"')) [
  | inl e ↦
      rw (e, (==_iff c b'"').0 e, quoted_name_doubled _, quoted_name-double_quotes name tail h) refl
  | inr e ↦
      rw
        (
          e,
          quoted_name_byte c (double_quotes name ++ (b'"' ∷ tail)) e,
          quoted_name-double_quotes name tail h,
        )
        refl
]

-- A name that is quoted with its quotes doubled is read back as it is, whatever bytes it holds, and the
-- text behind it is left, unless that goes on with a quote.
pub read_arg-double_quotes :
    (name tail : Bytes)
    → has_prefix tail (codes "\"") ≡ false
    → read_arg (b'"' ∷ double_quotes name ++ (b'"' ∷ tail)) ≡ some (name, tail)
unfolding read_arg
read_arg-double_quotes name tail h = quoted_name-double_quotes name tail h
