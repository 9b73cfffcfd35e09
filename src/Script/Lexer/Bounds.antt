-- ===== src/Script/Lexer/Bounds.antt =====
-- sqlConsume takes at least one byte and none behind the end of the input.
use d9s.Base.{
  ℕ, ◌+◌, ◌≤◌, ◌≡◌, refl, Bool, [], ◌∷◌, ◌++◌, Option, none, some, inl, inr, Bytes, codes, arith,
  Option-cases, has_prefix-le, index_byte-lt, index-le, length-take, ◌⊎◌, length, take, drop,
  index_byte, index, length-append, length-drop,
}
use d9s.Script.Lexer.{
  lex_rune, count_while, string_body, ident_body, found_or_end, dollar_quote_end, sql_consume,
  is_dollar_tag_byte,
}

pub count_while-le : (p : ℕ → Bool) (s : Bytes) → count_while p s ≤ length s
unfolding count_while
count_while-le p [] = omega arith
count_while-le p (c ∷ s) = ground (arith, count_while-le p s)

string_body-le : (s : Bytes) → string_body s ≤ length s
unfolding string_body
string_body-le [] = omega arith
string_body-le (c ∷ []) = omega arith
string_body-le (c ∷ d ∷ s) = ground (arith, string_body-le s, string_body-le (d ∷ s))

ident_body-le : (s : Bytes) → ident_body s ≤ length s
unfolding ident_body
ident_body-le [] = omega arith
ident_body-le (c ∷ []) = omega arith
ident_body-le (c ∷ d ∷ s) = ground (arith, ident_body-le s, ident_body-le (d ∷ s))

found_or_end-le :
    (o : Option ℕ) (more all : ℕ)
    → ((k : ℕ) → o ≡ some k → k + more ≤ all)
    → found_or_end o more all ≤ all
unfolding found_or_end
found_or_end-le none more all h = omega arith
found_or_end-le (some k) more all h = h k refl

found_or_end-pos : (o : Option ℕ) (all : ℕ) → 1 ≤ all → 1 ≤ found_or_end o 1 all
unfolding found_or_end
found_or_end-pos none all h = h
found_or_end-pos (some k) all h = omega arith

delim_end-le :
    (s delim : Bytes) (n : ℕ)
    → length delim ≡ n
    → found_or_end (index s delim) n (length s) ≤ length s
delim_end-le s delim n e =
    found_or_end-le (index s delim) n (length s) (λ k h. omega (arith, index-le s delim k h))

byte_end-le : (s : Bytes) (b : ℕ) → found_or_end (index_byte s b) 1 (length s) ≤ length s
byte_end-le s b =
    found_or_end-le (index_byte s b) 1 (length s) (λ k h. omega (arith, index_byte-lt s b k h))

dollar_quote_end-le :
    (s : Bytes) (n : ℕ) → dollar_quote_end s ≡ some n → (1 ≤ n) × (n ≤ length s + 1)
unfolding dollar_quote_end
dollar_quote_end-le s n h =
    let m = count_while is_dollar_tag_byte s in
    ground (
      arith,
      count_while-le is_dollar_tag_byte s,
      has_prefix-le (drop m s) (codes "$"),
      length-drop m s,
      length-drop (m + 1) s,
      length-take m s,
      length-append (take m s) (b'$' ∷ []),
      delim_end-le (drop (m + 1) s) (b'$' ∷ (take m s ++ b'$' ∷ [])) (m + 2),
    )

dollar-bounds :
    (s : Bytes)
    → (dollar_quote_end s ≡ none)
      ⊎ ((n : ℕ) × (dollar_quote_end s ≡ some n) × (1 ≤ n) × (n ≤ length s + 1))
dollar-bounds s = elim (Option-cases (dollar_quote_end s)) [
  | inl e ↦ inl e
  | inr (n, e) ↦ inr (n, e, (dollar_quote_end-le s n e).0, (dollar_quote_end-le s n e).1)
]

-- At least one byte is consumed, and none behind the end.
pub sql_consume_bounds :
    (b : Bool) (c : ℕ) (s : Bytes)
    → (1 ≤ (sql_consume b c s).0) × ((sql_consume b c s).0 ≤ length (c ∷ s))
unfolding sql_consume
sql_consume_bounds b c s = ground (
  arith,
  byte_end-le (c ∷ s) b'\n',
  found_or_end-pos (index_byte (c ∷ s) b'\n') (length (c ∷ s)),
  byte_end-le s b'`',
  has_prefix-le s (codes "*"),
  length-drop 1 s,
  delim_end-le (drop 1 s) (codes "*/") 2,
  string_body-le s,
  ident_body-le s,
  dollar-bounds s,
)

-- A plain byte of code is one byte.
pub sql_consume_rune :
    (b : Bool) (c : ℕ) (s : Bytes) → (sql_consume b c s).1 ≡ lex_rune → (sql_consume b c s).0 ≡ 1
unfolding sql_consume
sql_consume_rune b c s h = ground (arith, Option-cases (dollar_quote_end s))
