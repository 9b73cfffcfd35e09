-- ===== src/Script/Lexer.antt =====
-- sqlConsume and what it calls. A position `i` of the source is the suffix `s[i:]` here, and a
-- returned position is the number of bytes from there.
pub mod Bounds
use d9s.Base.{
  ℕ, zero, suc, ◌+◌, Bool, true, false, ◌&&◌, ◌||◌, List, [], ◌∷◌, ◌++◌, Option, none, some, Bytes,
  codes, ◌==◌, leb, within, if◌then◌else◌, length, take, drop, has_prefix, index_byte, index,
}

-- the kinds of sqlConsume
pub data Lex : Type 0 where
  lex_rune lex_comment lex_string lex_ident : Lex

unfoldable pub is_dollar_tag_byte : ℕ → Bool
is_dollar_tag_byte c = c == b'_' || within b'a' b'z' c || within b'A' b'Z' c || within b'0' b'9' c

unfoldable pub is_word_byte : ℕ → Bool
is_word_byte c =
    c == b'_' || within b'a' b'z' c || within b'A' b'Z' c || within b'0' b'9' c || leb 0x80 c

unfoldable pub is_space_byte : ℕ → Bool
is_space_byte c = c == b' ' || c == b'\t' || c == b'\n' || c == b'\r'

unfoldable pub is_digit_byte : ℕ → Bool
is_digit_byte c = within b'0' b'9' c

-- for j < len(s) && p(s[j]) { j++ }
unfoldable pub count_while : (ℕ → Bool) → Bytes → ℕ
count_while p [] = 0
count_while p (c ∷ s) = if p c then suc (count_while p s) else 0

-- The bytes of a '...' literal behind its opening quote: a backslash takes the next byte along, and
-- a doubled quote does not close.
unfoldable pub string_body : Bytes → ℕ
string_body [] = 0
string_body (c ∷ []) = 1
string_body (c ∷ d ∷ s) = elim (c == b'\\') [
  | true ↦ suc (suc (string_body s))
  | false ↦ elim (c == b'\'') [
    | true ↦ elim (d == b'\'') [ true ↦ suc (suc (string_body s)) | false ↦ 1 ]
    | false ↦ suc (string_body (d ∷ s))
  ]
]

-- The bytes of a "..." name behind its opening quote.
unfoldable pub ident_body : Bytes → ℕ
ident_body [] = 0
ident_body (c ∷ []) = 1
ident_body (c ∷ d ∷ s) = elim (c == b'"') [
  | true ↦ elim (d == b'"') [ true ↦ suc (suc (ident_body s)) | false ↦ 1 ]
  | false ↦ suc (ident_body (d ∷ s))
]

-- A found position with the bytes behind it, or the end of the input.
unfoldable pub found_or_end : Option ℕ → ℕ → ℕ → ℕ
found_or_end (some j) more all = j + more
found_or_end none more all = all

-- dollarQuoteEnd on `$` and what follows it; `none` is ok == false
unfoldable pub dollar_quote_end : Bytes → Option ℕ
dollar_quote_end rest =
    let n = count_while is_dollar_tag_byte rest in
    let delim = b'$' ∷ (take n rest ++ b'$' ∷ []) in
    if has_prefix (drop n rest) (codes "$")
    then some (
        n + 2 + found_or_end (index (drop (n + 1) rest) delim) (n + 2) (length (drop (n + 1) rest)))
    else none

-- sqlConsume at the byte `c` with `rest` behind it
unfoldable pub sql_consume : Bool → ℕ → Bytes → ℕ × Lex
sql_consume backtick c rest =
    if c == b'-' && has_prefix rest (codes "-")
    then (found_or_end (index_byte (c ∷ rest) b'\n') 1 (length (c ∷ rest)), lex_comment)
    else if c == b'/' && has_prefix rest (codes "*")
    then (2 + found_or_end (index (drop 1 rest) (codes "*/")) 2 (length (drop 1 rest)), lex_comment)
    else if c == b'\''
    then (1 + string_body rest, lex_string)
    else if c == b'"'
    then (1 + ident_body rest, lex_ident)
    else if c == b'`' && backtick
    then (1 + found_or_end (index_byte rest b'`') 1 (length rest), lex_ident)
    else if c == b'$'
    then elim (dollar_quote_end rest) [ some n ↦ (n, lex_string) | none ↦ (1, lex_rune) ]
    else (1, lex_rune)
