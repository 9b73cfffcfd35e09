-- ===== src/Tests/ScriptRuns.antt =====
-- internal/db/split.go on concrete scripts.
use d9s.Base.{
  ◌≡◌, refl, ◌++◌, List, [], ◌∷◌, true, false, Bytes, codes, arith, All, equal, to_upper,
  has_prefix, length, trim_space,
}
use d9s.Script.Destructive.{top_words, one_of, is_destructive}
use d9s.Script.Destructive.Keywords.{is_destructive-keyword}
use d9s.Script.Destructive.Words.{empty, plain, opens, closes, top_words_group}
use d9s.Script.Lexer.{is_word_byte}
use d9s.Script.Split.{split, split_sql, split_redis}
use d9s.Script.Split.Lines.{IsCommand, join_lines, split_redis-commands}
use d9s.Script.Split.Segments.{is_backslash, segments, texts, split_sql-texts}
use d9s.Script.Split.Slices.{Slices, split_sql-Slices}
use d9s.Script.Token.{Token, TokenKind, word, punct, postgres, clickhouse, is_punct_text}
use d9s.Script.Tokens.{sql_tokens, tokenize_sql, tokenize_redis}
use d9s.Script.Tokens.Redis.{redis_text, tokenize_redis-Tiles}
use d9s.Script.Tokens.Sql.{sql_text, tokenize_sql-Tiles}
use d9s.Script.Tokens.Tiling.{Tiles}
use d9s.Script.Tokens.Words.{EndsWord, literal, literal_token, sql_tokens-literal}

abbrev script : Bytes
script = codes "select 1; -- x\n'a;b'"

tokenize_sql-Tiles_example : Tiles sql_text 0 script (tokenize_sql script false)
tokenize_sql-Tiles_example = tokenize_sql-Tiles false script

tokenize_redis-Tiles_example :
    Tiles redis_text 0 (codes "GET \"a b\"\n# c") (tokenize_redis (codes "GET \"a b\"\n# c"))
tokenize_redis-Tiles_example = tokenize_redis-Tiles (codes "GET \"a b\"\n# c")

split_sql-Slices_example : Slices script (split_sql script false)
split_sql-Slices_example = split_sql-Slices false script

no_backslash : All (λ t. is_backslash t ≡ false) (tokenize_sql script false)
unfolding tokenize_sql is_punct_text equal
no_backslash = (refl, (refl, (refl, (refl, (refl, tt)))))

split_sql-texts_example :
    split_sql script false ≡ texts script (segments (length script) (tokenize_sql script false) 0)
split_sql-texts_example = split_sql-texts false script no_backslash

sql_tokens-literal_example :
    sql_tokens 5 false 3 (literal (codes "a;--b") ++ codes " x")
    ≡ literal_token 3 (codes "a;--b") ∷ sql_tokens 4 false 10 (codes " x")
sql_tokens-literal_example =
    sql_tokens-literal 4 false 3 (codes "a;--b") (codes " x") (omega arith) (omega arith)
      (omega arith)

drop_ends : EndsWord (codes " table t")
unfolding is_word_byte
drop_ends = refl

drop_is_keyword :
    one_of (to_upper (codes "dRoP")) (codes "DROP" ∷ codes "TRUNCATE" ∷ codes "ALTER" ∷ []) ≡ true
unfolding to_upper equal
drop_is_keyword = refl

is_destructive-keyword_example :
    (is_destructive postgres (codes "dRoP table t") ≡ true)
    × (is_destructive clickhouse (codes "dRoP table t") ≡ true)
is_destructive-keyword_example =
    is_destructive-keyword b'd' (codes "RoP") (codes " table t") (refl, (refl, (refl, (refl, tt))))
      drop_ends drop_is_keyword

abbrev tok : TokenKind → Bytes → Token
tok k text = record { kind = k; start = 0; end = 0; text = text }

abbrev a_word : Token
a_word = tok word (codes "WHERE")

abbrev open_paren : Token
open_paren = tok punct (codes "(")

abbrev close_paren : Token
close_paren = tok punct (codes ")")

parens :
    (opens open_paren ≡ true)
    × (closes close_paren ≡ true)
    × (opens a_word ≡ false)
    × (closes a_word ≡ false)
unfolding is_punct_text equal
parens = (refl, refl, refl, refl)

top_words_group_example :
    top_words 0 (a_word ∷ open_paren ∷ a_word ∷ close_paren ∷ []) ≡ top_words 0 (a_word ∷ [])
top_words_group_example =
    top_words_group 0 (a_word ∷ []) (a_word ∷ []) [] open_paren close_paren parens.0 parens.1
      (plain a_word parens.2 parens.3 empty)

abbrev commands : List Bytes
commands = codes "SET a 1" ∷ codes "GET a" ∷ []

commands_are : All IsCommand commands
unfolding trim_space has_prefix
commands_are = ((refl, cc, refl), ((refl, cc, refl), tt))

split_redis-commands_example :
    All IsCommand (split_redis (codes "x")) × (split_redis (join_lines commands) ≡ commands)
split_redis-commands_example =
    split_redis-commands (codes "x") (codes "SET a 1") (codes "GET a" ∷ []) commands_are
      (omega arith)

split_run :
    split postgres (codes "select ';' ; -- done;\n\\d users\nselect 2; ;")
    ≡ codes "select ';'" ∷ codes "\\d users" ∷ codes "select 2" ∷ []
unfolding split tokenize_sql
split_run = refl
