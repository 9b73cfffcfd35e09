-- ===== src/Script/Tokens.antt =====
-- Tokenize: the SQL and the Redis tokenizer. As in the lexer, a position is the suffix from there.
-- The loops run on fuel, the number of bytes left, since each round takes at least one byte.
pub mod Tiling
pub mod Sql
pub mod Redis
pub mod Words
use d9s.Base.{
  ◌≡◌, refl, ℕ, zero, suc, ◌+◌, ◌-◌, Bool, true, false, not, ◌&&◌, ◌||◌, List, [], ◌∷◌, ◌++◌,
  Option, none, some, Bytes, codes, ◌==◌, ltb, if◌then◌else◌, length, take, drop, get_elem?,
  index_byte, index, trim_prefix, trim_suffix, replace_all,
}
use d9s.Script.Lexer.{
  Lex, lex_rune, lex_comment, lex_string, lex_ident, is_word_byte, is_space_byte, is_digit_byte,
  is_dollar_tag_byte, count_while, found_or_end, dollar_quote_end, string_body, ident_body,
  sql_consume,
}
use d9s.Script.Token.{
  EngineType, redis, is_clickhouse, TokenKind, word, quoted, string, number, comment, command,
  punct, Token,
}

-- j < len(s) && s[j] == b
pub byte_at : Bytes → ℕ → ℕ → Bool
byte_at s j b = elim (get_elem? s j) [ none ↦ false | some c ↦ c == b ]

-- The second half of numberEnd: a signed exponent.
pub exponent_end : Bytes → ℕ → ℕ
unfolding byte_at
exponent_end s j =
    if ltb 0 j
      && (byte_at s (j - 1) b'e' || byte_at s (j - 1) b'E')
      && (byte_at s j b'+' || byte_at s j b'-')
    then j + 1 + count_while is_word_byte (drop (j + 1) s)
    else j

-- numberEnd, with `s` from the first digit on
pub number_end : Bytes → ℕ → ℕ
unfolding byte_at
number_end s j =
    exponent_end s
      (if byte_at s j b'.' then j + 1 + count_while is_word_byte (drop (j + 1) s) else j)

-- unquoteName
pub unquote_name : Bytes → Bytes
unfolding trim_prefix trim_suffix replace_all
unquote_name [] = []
unquote_name (q ∷ []) = q ∷ []
unquote_name (q ∷ c ∷ s) =
    let quote = q ∷ [] in
    replace_all (trim_suffix (trim_prefix (q ∷ c ∷ s) quote) quote) (quote ++ quote) quote

-- One round of a tokenizer: the token that it appends, if any, and the bytes that it passes.
abbrev pub Element : Type 0
Element = Option Token × ℕ

abbrev pub element : TokenKind → ℕ → ℕ → Bytes → Element
element k i n text = (some (record { kind = k; start = i; end = i + n; text = text }), n)

-- The default branch of tokenizeSQL: a blank, a word, a number or a byte of punctuation. `n` is what
-- sqlConsume took.
pub plain_element : ℕ → ℕ → Bytes → ℕ → Element
plain_element i c rest n =
    let s = c ∷ rest in
    let j = count_while is_word_byte s in
    if is_space_byte c
    then (none, n)
    else if is_word_byte c
    then (if is_digit_byte c
        then element number i (number_end s j) (take (number_end s j) s)
        else element word i j (take j s))
    else element punct i n (take n s)

-- The body of the loop of tokenizeSQL.
pub sql_element : Bool → ℕ → ℕ → Bytes → Element
sql_element backtick i c rest =
    let (n, kind) = sql_consume backtick c rest in
    let s = c ∷ rest in
    elim kind [
      | lex_comment ↦ element comment i n (take n s)
      | lex_string ↦ element string i n (take n s)
      | lex_ident ↦ element quoted i n (unquote_name (take n s))
      | lex_rune ↦ plain_element i c rest n
    ]

abbrev pub push_token : Option Token → List Token → List Token
push_token none ts = ts
push_token (some t) ts = t ∷ ts

pub sql_tokens : ℕ → Bool → ℕ → Bytes → List Token
sql_tokens zero backtick i s = []
sql_tokens (suc f) backtick i [] = []
sql_tokens (suc f) backtick i (c ∷ rest) =
    let (t, n) = sql_element backtick i c rest in
    push_token t (sql_tokens f backtick (i + n) (drop n (c ∷ rest)))

unfoldable pub tokenize_sql : Bytes → Bool → List Token
unfolding sql_tokens sql_element plain_element number_end exponent_end unquote_name sql_consume
    found_or_end dollar_quote_end string_body ident_body count_while is_dollar_tag_byte is_word_byte
    is_space_byte is_digit_byte index_byte index
tokenize_sql s backtick = sql_tokens (length s) backtick 0 s

-- The bytes of a quoted Redis argument behind its opening quote.
pub quoted_arg : ℕ → Bytes → ℕ
quoted_arg q [] = 0
quoted_arg q (c ∷ []) = if c == b'\\' then 1 else if c == q then 1 else if c == b'\n' then 0 else 1
quoted_arg q (c ∷ d ∷ s) = elim (c == b'\\') [
  | true ↦ suc (suc (quoted_arg q s))
  | false ↦ elim (c == q) [
    | true ↦ 1
    | false ↦ elim (c == b'\n') [ true ↦ 0 | false ↦ suc (quoted_arg q (d ∷ s)) ]
  ]
]

-- redisArgEnd at the byte `c` with `rest` behind it
pub redis_arg_end : ℕ → Bytes → ℕ
redis_arg_end c rest =
    if not (c == b'"') && not (c == b'\'')
    then count_while (λ b. not (is_space_byte b)) (c ∷ rest)
    else 1 + quoted_arg c rest

-- The kind of an argument; `first` says that none stands before it on its line.
pub arg_kind : Bool → ℕ → TokenKind
arg_kind first c =
    if first
    then command
    else if c == b'"' || c == b'\''
    then string
    else if is_digit_byte c
    then number
    else word

-- The body of the loop of tokenizeRedis, with the new value of `first`.
pub redis_element : Bool → ℕ → ℕ → Bytes → Bool × Element
redis_element first i c rest =
    let s = c ∷ rest in
    let line = found_or_end (index_byte s b'\n') 0 (length s) in
    let n = redis_arg_end c rest in
    if c == b'\n'
    then (true, (none, 1))
    else if is_space_byte c
    then (first, (none, 1))
    else if c == b'#' && first
    then (first, element comment i line (take line s))
    else (false, element (arg_kind first c) i n (take n s))

pub redis_tokens : ℕ → Bool → ℕ → Bytes → List Token
redis_tokens zero first i s = []
redis_tokens (suc f) first i [] = []
redis_tokens (suc f) first i (c ∷ rest) =
    let r = redis_element first i c rest in
    push_token r.1.0 (redis_tokens f r.0 (i + r.1.1) (drop r.1.1 (c ∷ rest)))

unfoldable pub tokenize_redis : Bytes → List Token
unfolding redis_tokens redis_element redis_arg_end quoted_arg arg_kind found_or_end count_while
    is_space_byte is_digit_byte index_byte
tokenize_redis s = redis_tokens (length s) true 0 s

-- Tokenize
unfoldable pub tokenize : EngineType → Bytes → List Token
unfolding tokenize_sql tokenize_redis is_clickhouse
tokenize redis s = tokenize_redis s
tokenize engine s = tokenize_sql s (is_clickhouse engine)

tokenize_example :
    tokenize EngineType.postgres (codes "a 'x;' -- c\n1e+2;")
    ≡ record { kind = word; start = 0; end = 1; text = codes "a" }
      ∷ record { kind = string; start = 2; end = 6; text = codes "'x;'" }
      ∷ record { kind = comment; start = 7; end = 12; text = codes "-- c\n" }
      ∷ record { kind = number; start = 12; end = 16; text = codes "1e+2" }
      ∷ record { kind = punct; start = 16; end = 17; text = codes ";" }
      ∷ []
unfolding tokenize
tokenize_example = refl
