-- ===== src/Script/Tokens/Words.antt =====
-- A keyword in front of a script is its first token; a literal is one token, whatever it holds.
use d9s.Base.{
  ℕ, suc, ◌+◌, ◌≡◌, ◌≢◌, ◌∙◌, refl, ap, Bool, true, false, ◌||◌, List, [], ◌∷◌, ◌++◌, some, Bytes,
  arith, within, All, Lacks, length, drop, take-append, drop-append, append_assoc,
}
use d9s.Script.Lexer.{
  sql_consume, string_body, lex_rune, lex_string, is_word_byte, is_space_byte, is_digit_byte,
  count_while,
}
use d9s.Script.Token.{word, string, Token}
use d9s.Script.Tokens.{plain_element, sql_element, sql_tokens, tokenize_sql}

abbrev pub is_letter : ℕ → Bool
is_letter c = within b'a' b'z' c || within b'A' b'Z' c

-- No byte of a word stands in front.
abbrev pub EndsWord : Bytes → Type 0
EndsWord [] = Unit
EndsWord (c ∷ s) = is_word_byte c ≡ false

-- No quote stands in front.
abbrev pub EndsLiteral : Bytes → Type 0
EndsLiteral [] = Unit
EndsLiteral (c ∷ s) = c ≢ b'\''

count_while_word :
    (kw rest : Bytes)
    → All (λ c. is_letter c ≡ true) kw
    → EndsWord rest
    → count_while is_word_byte (kw ++ rest) ≡ length kw
unfolding count_while is_word_byte
count_while_word [] [] h e = refl
count_while_word [] (c ∷ s) h e = ground arith
count_while_word (k ∷ kw) rest h e = ground (arith, count_while_word kw rest h.1 e)

letter_bytes :
    (c : ℕ)
    → is_letter c ≡ true
    → (is_word_byte c ≡ true) × (is_space_byte c ≡ false) × (is_digit_byte c ≡ false)
unfolding is_word_byte is_space_byte is_digit_byte
letter_bytes c h = ground arith

consume_letter :
    (b : Bool) (c : ℕ) (s : Bytes) → is_letter c ≡ true → sql_consume b c s ≡ (1, lex_rune)
unfolding sql_consume
consume_letter b c s h = ground arith

abbrev pub keyword_token : Bytes → Token
keyword_token kw = record { kind = word; start = 0; end = length kw; text = kw }

keyword_element :
    (b : Bool) (c : ℕ) (kw rest : Bytes)
    → All (λ c. is_letter c ≡ true) (c ∷ kw)
    → EndsWord rest
    → sql_element b 0 c (kw ++ rest) ≡ (some (keyword_token (c ∷ kw)), length (c ∷ kw))
unfolding sql_element plain_element
keyword_element b c kw rest h e =
    let n = count_while_word (c ∷ kw) rest h e in
    ground (arith, consume_letter b c (kw ++ rest) h.0, letter_bytes c h.0, n, take-append kw rest)

-- A word of letters, with no byte of a word behind it, is the first token.
pub tokenize_keyword :
    (b : Bool) (c : ℕ) (kw rest : Bytes)
    → All (λ x. is_letter x ≡ true) (c ∷ kw)
    → EndsWord rest
    → (ts : List Token) × (tokenize_sql ((c ∷ kw) ++ rest) b ≡ keyword_token (c ∷ kw) ∷ ts)
unfolding tokenize_sql sql_tokens
tokenize_keyword b c kw rest h e = (
  sql_tokens (length (kw ++ rest)) b (0 + length (c ∷ kw))
      (drop (length (c ∷ kw)) ((c ∷ kw) ++ rest)),
  rw (keyword_element b c kw rest h e),
)

string_body_step :
    (c : ℕ) (s : Bytes) → c ≢ b'\'' → c ≢ b'\\' → string_body (c ∷ s) ≡ suc (string_body s)
unfolding string_body
string_body_step c [] h k = refl
string_body_step c (d ∷ s) h k = ground arith

string_body_close : (rest : Bytes) → EndsLiteral rest → string_body (b'\'' ∷ rest) ≡ 1
unfolding string_body
string_body_close [] e = refl
string_body_close (d ∷ s) e = ground arith

string_body_plain :
    (body rest : Bytes)
    → Lacks b'\'' body
    → Lacks b'\\' body
    → EndsLiteral rest
    → string_body (body ++ b'\'' ∷ rest) ≡ length (body ++ b'\'' ∷ [])
string_body_plain [] rest h k e = string_body_close rest e
string_body_plain (c ∷ body) rest h k e =
    string_body_step c (body ++ b'\'' ∷ rest) h.0 k.0
    ∙ ap suc (string_body_plain body rest h.1 k.1 e)

consume_quote : (b : Bool) (s : Bytes) → sql_consume b b'\'' s ≡ (1 + string_body s, lex_string)
unfolding sql_consume
consume_quote b s = refl

abbrev pub literal : Bytes → Bytes
literal body = b'\'' ∷ (body ++ b'\'' ∷ [])

abbrev pub literal_token : ℕ → Bytes → Token
literal_token i body = record {
  kind = string;
  start = i;
  end = i + length (literal body);
  text = literal body;
}

literal_size :
    (body rest : Bytes)
    → Lacks b'\'' body
    → Lacks b'\\' body
    → EndsLiteral rest
    → 1 + string_body (body ++ b'\'' ∷ rest) ≡ length (literal body)
literal_size body rest h k e = ap (λ n. 1 + n) (string_body_plain body rest h k e) ∙ omega arith

-- A string literal is one token, whatever bytes but quotes and backslashes it holds (semicolons,
-- comment openers and line ends included), and the tokenizer goes on right behind it.
pub sql_tokens-literal :
    (f : ℕ) (b : Bool) (i : ℕ) (body rest : Bytes)
    → Lacks b'\'' body
    → Lacks b'\\' body
    → EndsLiteral rest
    → sql_tokens (suc f) b i (literal body ++ rest)
      ≡ literal_token i body ∷ sql_tokens f b (i + length (literal body)) rest
unfolding sql_tokens sql_element
sql_tokens-literal f b i body rest h k e =
    let a = append_assoc body (b'\'' ∷ []) rest in
    ground (
      arith,
      a,
      consume_quote b (body ++ b'\'' ∷ rest),
      literal_size body rest h k e,
      take-append (literal body) rest,
      drop-append (literal body) rest,
    )
