-- ===== src/Script/Destructive/Keywords.antt =====
-- Statements that start with a destructive keyword.
use d9s.Base.{ℕ, ◌≡◌, refl, Bool, true, false, List, [], ◌∷◌, ◌++◌, Bytes, codes, All, to_upper}
use d9s.Script.Destructive.{
  top_words, one_of, destructive_words, top_level_sql_words, is_destructive,
}
use d9s.Script.Tokens.Words.{is_letter, EndsWord, keyword_token, tokenize_keyword}
use d9s.Script.Token.{postgres, clickhouse, is_clickhouse, Token, is_punct_text, is_word}

top_words_keyword :
    (kw : Bytes) (ts : List Token)
    → top_words 0 (keyword_token kw ∷ ts) ≡ to_upper kw ∷ top_words 0 ts
unfolding top_words is_punct_text is_word
top_words_keyword kw ts = refl

keyword_words :
    (b : Bool) (c : ℕ) (kw rest : Bytes)
    → All (λ x. is_letter x ≡ true) (c ∷ kw)
    → EndsWord rest
    → one_of (to_upper (c ∷ kw)) (codes "DROP" ∷ codes "TRUNCATE" ∷ codes "ALTER" ∷ []) ≡ true
    → destructive_words (top_level_sql_words ((c ∷ kw) ++ rest) b) ≡ true
unfolding top_level_sql_words destructive_words
keyword_words b c kw rest h e k =
    let (ts, t) = tokenize_keyword b c kw rest h e in rw (t, top_words_keyword (c ∷ kw) ts) (rw k)

-- A statement that starts with DROP, TRUNCATE or ALTER, in any case of the letters, is destructive
-- whatever follows the word.
pub is_destructive-keyword :
    (c : ℕ) (kw rest : Bytes)
    → All (λ x. is_letter x ≡ true) (c ∷ kw)
    → EndsWord rest
    → one_of (to_upper (c ∷ kw)) (codes "DROP" ∷ codes "TRUNCATE" ∷ codes "ALTER" ∷ []) ≡ true
    → (is_destructive postgres ((c ∷ kw) ++ rest) ≡ true)
      × (is_destructive clickhouse ((c ∷ kw) ++ rest) ≡ true)
unfolding is_destructive is_clickhouse
is_destructive-keyword c kw rest h e k =
    (keyword_words false c kw rest h e k, keyword_words true c kw rest h e k)
