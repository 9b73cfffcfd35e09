-- ===== src/Script/Tokens/Sql.antt =====
-- tokenizeSQL loses nothing of the script.
use d9s.Base.{
  ℕ, zero, suc, ◌+◌, ◌≤◌, ◌<◌, ◌≡◌, Bool, true, [], ◌∷◌, inl, inr, Bytes, arith, Bool-cases, length,
  drop, length-drop,
}
use d9s.Script.Lexer.{is_word_byte, count_while}
use d9s.Script.Lexer.Bounds.{count_while-le, sql_consume_bounds, sql_consume_rune}
use d9s.Script.Token.{TokenKind, quoted}
use d9s.Script.Tokens.{
  byte_at, exponent_end, number_end, unquote_name, plain_element, sql_element, sql_tokens,
  tokenize_sql,
}
use d9s.Script.Tokens.Tiling.{Tiles, done, IsElement, Tiles-push}

-- The text of an SQL token: a quoted name loses its quotes, all else stays as it is written.
abbrev pub sql_text : TokenKind → Bytes → Bytes
sql_text quoted w = unquote_name w
sql_text _ w = w

byte_at-lt : (s : Bytes) (j b : ℕ) → byte_at s j b ≡ true → j < length s
unfolding byte_at
byte_at-lt [] j b h = cc
byte_at-lt (c ∷ s) zero b h = omega arith
byte_at-lt (c ∷ s) (suc j) b h = omega (arith, byte_at-lt s j b h)

exponent_end_bounds :
    (s : Bytes) (j : ℕ) → j ≤ length s → (j ≤ exponent_end s j) × (exponent_end s j ≤ length s)
unfolding exponent_end
exponent_end_bounds s j h = ground (
  arith,
  byte_at-lt s j b'+',
  byte_at-lt s j b'-',
  count_while-le is_word_byte (drop (j + 1) s),
  length-drop (j + 1) s,
)

number_end_bounds :
    (s : Bytes) (j : ℕ) → j ≤ length s → (j ≤ number_end s j) × (number_end s j ≤ length s)
unfolding number_end
number_end_bounds s j h = elim (Bool-cases (byte_at s j b'.')) [
  | inl e ↦ rw e (
      let k = j + 1 + count_while is_word_byte (drop (j + 1) s) in
      omega (
        arith,
        exponent_end_bounds s k,
        byte_at-lt s j b'.' e,
        count_while-le is_word_byte (drop (j + 1) s),
        length-drop (j + 1) s,
      ))
  | inr e ↦ rw e (exponent_end_bounds s j h)
]

count_while_first :
    (c : ℕ) (rest : Bytes) → is_word_byte c ≡ true → 1 ≤ count_while is_word_byte (c ∷ rest)
unfolding count_while
count_while_first c rest h = ground arith

plain_element-IsElement :
    (i c : ℕ) (rest : Bytes) → IsElement sql_text i c rest (plain_element i c rest 1)
unfolding plain_element
plain_element-IsElement i c rest =
    let s = c ∷ rest in
    ground (
      arith,
      count_while-le is_word_byte s,
      count_while_first c rest,
      number_end_bounds s (count_while is_word_byte s),
    )

sql_element-IsElement :
    (b : Bool) (i c : ℕ) (rest : Bytes) → IsElement sql_text i c rest (sql_element b i c rest)
unfolding sql_element
sql_element-IsElement b i c rest = ground (
  arith,
  sql_consume_bounds b c rest,
  sql_consume_rune b c rest,
  plain_element-IsElement i c rest,
)

sql_tokens-Tiles :
    (f : ℕ) (b : Bool) (i : ℕ) (s : Bytes) → length s ≤ f → Tiles sql_text i s (sql_tokens f b i s)
unfolding sql_tokens
sql_tokens-Tiles zero b i [] h = done
sql_tokens-Tiles zero b i (c ∷ s) h = absurd (omega arith)
sql_tokens-Tiles (suc f) b i [] h = done
sql_tokens-Tiles (suc f) b i (c ∷ s) h =
    let (t, n) = sql_element b i c s in
    let e = sql_element-IsElement b i c s in
    Tiles-push sql_text t i n c s e
      (sql_tokens-Tiles f b (i + n) (drop n (c ∷ s)) (omega (arith, length-drop n (c ∷ s))))

-- The tokens of an SQL script cover it: they stand in order, each where it says and with the text
-- that stands there (a quoted name without its quotes), and every byte outside them is a blank.
pub tokenize_sql-Tiles : (b : Bool) (s : Bytes) → Tiles sql_text 0 s (tokenize_sql s b)
unfolding tokenize_sql
tokenize_sql-Tiles b s = sql_tokens-Tiles (length s) b 0 s (omega arith)
