-- ===== src/Complete.antt =====
-- internal/ui/complete.go: what the cursor of the editor expects, as a request for names.
pub mod Words
pub mod Candidates
pub mod Popup
pub mod Quote
pub mod Ranked
pub mod Offered
pub mod Scanned
use mathlib.Core.List.{reverse}
use d9s.Base.{
  ℕ, zero, suc, ◌+◌, ◌-◌, Bool, true, false, not, ◌&&◌, ◌||◌, List, [], ◌∷◌, ◌++◌, Option, none,
  some, Bytes, codes, ltb, leb, ◌==◌, if◌then◌else◌, length, take, drop, min, equal, fields,
  to_lower, to_upper,
}
use d9s.Config.Connection.{contains_text}
use d9s.Config.Net.{last_index_byte}
use d9s.Editor.{code_tokens, statement_at}
use d9s.Script.Lexer.{is_word_byte}
use d9s.Script.Token.{EngineType, redis, Token, TokenKind, is_word, is_punct_text}
use d9s.Script.Tokens.{tokenize}
use d9s.Complete.Words.{
  table_keywords, column_keywords, sql_keyword_set, redis_key_commands, redis_multi_key_commands,
}

pub data CompletionKind : Type 0 where
  none_here keywords tables columns redis_names redis_keys : CompletionKind

-- completionRequest
pub record CompletionRequest : Type 0 where
  pub kind : CompletionKind
  pub word : Bytes
  pub qualifier : Bytes
  pub tables : List Bytes

-- tokensBefore
unfoldable pub tokens_before : List Token → ℕ → List Token
tokens_before [] offset = []
tokens_before (t ∷ ts) offset =
    let rest = tokens_before ts offset in if ltb offset t.end then [] else t ∷ rest

-- isName
unfoldable pub is_name : Token → Bool
is_name t = elim t.kind [ TokenKind.word ↦ true | TokenKind.quoted ↦ true | _ ↦ false ]

-- isKeyword
unfoldable pub is_keyword : Token → Bool
unfolding is_word contains_text sql_keyword_set to_upper
is_keyword t = is_word t.kind && contains_text sql_keyword_set (to_upper t.text)

-- The count of brackets to pass on the way back.
unfoldable pub depth_before : Token → ℕ → ℕ
unfolding is_punct_text
depth_before t depth =
    if is_punct_text t (codes ")")
    then suc depth
    else if is_punct_text t (codes "(")
    then depth - 1
    else depth

-- The token in front of an open bracket is a name: its list holds columns.
unfoldable pub is_called : List Token → Bool
unfolding is_name is_keyword
is_called [] = false
is_called (t ∷ back) = is_name t && not (is_keyword t)

-- The loop of clauseKind, from the last token back. `at_end` holds on the last token, `comma` when the
-- last token is one.
unfoldable pub clause_from : Bool → Bool → ℕ → List Token → CompletionKind
unfolding depth_before is_called is_word is_punct_text contains_text to_upper
clause_from comma at_end depth [] = keywords
clause_from comma at_end depth (t ∷ back) =
    let rest =
      clause_from comma false (if is_word t.kind then depth else depth_before t depth) back in
    let up = to_upper t.text in
    if is_word t.kind
    then (if contains_text table_keywords up
        then (if at_end || comma then tables else keywords)
        else if contains_text column_keywords up
        then columns
        else rest)
    else if (is_punct_text t (codes "(") && depth == 0) && is_called back
    then columns
    else rest

unfoldable pub ends_in_comma : List Token → Bool
unfolding is_punct_text
ends_in_comma [] = false
ends_in_comma (t ∷ back) = is_punct_text t (codes ",")

-- clauseKind
unfoldable pub clause_kind : List Token → CompletionKind
unfolding clause_from ends_in_comma
clause_kind toks = clause_from (ends_in_comma (reverse toks)) true 0 (reverse toks)

-- The bytes at the front that pass the test, and the others.
unfoldable pub split_while : (ℕ → Bool) → Bytes → Bytes × Bytes
split_while test [] = ([], [])
split_while test (c ∷ s) =
    let (a, b) = split_while test s in if test c then (c ∷ a, b) else ([], c ∷ s)

unfoldable pub qualified_by : Bytes → Bytes → Bytes × Bytes
unfolding split_while is_word_byte
qualified_by [] word = ([], word)
qualified_by (c ∷ back) word =
    let q = (split_while (λ d. is_word_byte d || d == b'.') back).0 in
    if c == b'.' then (reverse q, word) else ([], word)

-- splitWordAtCursor, which walks back from the cursor.
unfoldable pub split_word_at_cursor : Bytes → Bytes × Bytes
unfolding split_while qualified_by is_word_byte
split_word_at_cursor text =
    let (word, back) = split_while is_word_byte (reverse text) in qualified_by back (reverse word)

-- The loop of readQualifiedName.
unfoldable pub read_parts : Bytes → List Token → Bytes × List Token
unfolding is_punct_text is_name
read_parts name [] = (name, [])
read_parts name (d ∷ []) = (name, d ∷ [])
read_parts name (d ∷ t ∷ ts) =
    let more = read_parts (name ++ codes "." ++ t.text) ts in
    if is_punct_text d (codes ".") && is_name t then more else (name, d ∷ t ∷ ts)

-- readQualifiedName, with the tokens behind the name
unfoldable pub read_qualified_name : List Token → Bytes × List Token
unfolding is_name is_keyword read_parts
read_qualified_name [] = ([], [])
read_qualified_name (t ∷ ts) =
    if not (is_name t) || is_keyword t then ([], t ∷ ts) else read_parts t.text ts

-- The tables of a statement, its aliases, the last declared in front, and the tokens left.
pub record Named : Type 0 where
  pub tables : List Bytes
  pub aliases : List (Bytes × Bytes)
  pub rest : List Token

unfoldable pub skip_as : List Token → List Token
unfolding is_word to_upper
skip_as [] = []
skip_as (t ∷ ts) = if is_word t.kind && equal (to_upper t.text) (codes "AS") then ts else t ∷ ts

unfoldable pub read_alias : Bytes → Named → Named
unfolding is_name is_keyword to_lower
read_alias name n = elim n.rest [
  | [] ↦ n
  | t ∷ ts ↦
      if is_name t && not (is_keyword t)
      then record n { aliases = (to_lower t.text, name) ∷ n.aliases; rest = ts }
      else n
]

unfoldable pub skip_comma : List Token → Option (List Token)
unfolding is_punct_text
skip_comma [] = none
skip_comma (t ∷ ts) = if is_punct_text t (codes ",") then some ts else none

-- The inner loop of statementTables: each round reads a name, so the count of the tokens bounds it.
unfoldable pub read_tables : ℕ → Named → Named
unfolding read_qualified_name skip_as read_alias skip_comma
read_tables zero n = n
read_tables (suc fuel) n =
    let (name, next) = read_qualified_name n.rest in
    let m = read_alias name (record n { tables = n.tables ++ name ∷ []; rest = skip_as next }) in
    let more : Named = elim (skip_comma m.rest) [
      | none ↦ m
      | some ts ↦ read_tables fuel (record m { rest = ts })
    ] in
    if equal name [] then n else more

-- The outer loop.
unfoldable pub find_tables : ℕ → Named → Named
unfolding read_tables is_word contains_text to_upper
find_tables zero n = n
find_tables (suc fuel) n = elim n.rest [
  | [] ↦ n
  | t ∷ ts ↦
      let behind = record n { rest = ts } in
      find_tables fuel (
        if is_word t.kind && contains_text table_keywords (to_upper t.text)
        then read_tables (length ts) behind
        else behind)
]

-- statementTables: every round of a loop passes a token.
unfoldable pub statement_tables : List Token → Named
unfolding find_tables
statement_tables toks =
    find_tables (length toks) (record { tables = []; aliases = []; rest = toks })

unfoldable pub find_alias : Bytes → List (Bytes × Bytes) → Option Bytes
find_alias key [] = none
find_alias key (p ∷ aliases) = if equal p.0 key then some p.1 else find_alias key aliases

-- redisLineAt
unfoldable pub redis_line_at : Bytes → ℕ → Bytes
unfolding last_index_byte
redis_line_at buf cursor =
    let line = take cursor buf in
    elim (last_index_byte line b'\n') [ none ↦ line | some i ↦ drop (suc i) line ]

-- redisArgIn: what follows the last blank.
unfoldable pub redis_arg_in : Bytes → Bytes
unfolding split_while
redis_arg_in line = reverse (split_while (λ c. not (c == b' ' || c == b'\t')) (reverse line)).0

-- The request for an argument of a command, `arg` of them being before it.
unfoldable pub redis_argument : List Bytes → Bytes → CompletionKind
unfolding contains_text to_upper
redis_argument [] word = redis_names
redis_argument (f ∷ fs) word =
    let cmd = to_upper f in
    let arg = if equal word [] then suc (length fs) else length fs in
    if equal word [] || ltb 0 (length fs)
    then (if contains_text redis_multi_key_commands cmd
          || (contains_text redis_key_commands cmd && arg == 1)
        then redis_keys
        else none_here)
    else redis_names

-- redisRequestAt
unfoldable pub redis_request_at : Bytes → ℕ → CompletionRequest
unfolding redis_line_at redis_arg_in fields redis_argument
redis_request_at buf cursor =
    let line = redis_line_at buf cursor in
    let word = redis_arg_in line in
    record { kind = redis_argument (fields line) word; word = word; qualifier = []; tables = [] }

unfoldable pub is_tables : CompletionKind → Bool
is_tables tables = true
is_tables _ = false

-- The request of a name with a qualifier.
unfoldable pub qualified_request :
    CompletionKind → Bytes → Bytes → List (Bytes × Bytes) → CompletionRequest
unfolding is_tables find_alias to_lower
qualified_request kind qualifier word aliases =
    let owner : Bytes = elim (find_alias (to_lower qualifier) aliases) [
      | some table ↦ table
      | none ↦ qualifier
    ] in
    if is_tables kind
    then record { kind = kind; word = word; qualifier = qualifier; tables = [] }
    else record { kind = columns; word = word; qualifier = qualifier; tables = owner ∷ [] }

-- The request of a name without one.
unfoldable pub plain_request : CompletionKind → Bytes → List Bytes → CompletionRequest
plain_request columns word [] = record { kind = keywords; word = word; qualifier = []; tables = [] }
plain_request columns word (t ∷ ts) = record {
  kind = columns;
  word = word;
  qualifier = [];
  tables = t ∷ ts;
}
plain_request kind word ts = record { kind = kind; word = word; qualifier = []; tables = [] }

unfoldable pub sql_request_at : EngineType → Bytes → ℕ → CompletionRequest
unfolding split_word_at_cursor tokenize statement_at code_tokens tokens_before clause_kind
    statement_tables qualified_request plain_request
sql_request_at engine buf cursor =
    let (qualifier, word) = split_word_at_cursor (take cursor buf) in
    let toks = code_tokens (statement_at (tokenize engine buf) cursor) in
    let name_start =
      cursor - length word - (if equal qualifier [] then 0 else suc (length qualifier)) in
    let kind = clause_kind (tokens_before toks name_start) in
    let named = statement_tables toks in
    if equal qualifier []
    then plain_request kind word named.tables
    else qualified_request kind qualifier word named.aliases

-- completionRequestAt
unfoldable pub completion_request_at : EngineType → Bytes → ℕ → CompletionRequest
unfolding redis_request_at sql_request_at
completion_request_at redis buf cursor = redis_request_at buf (min cursor (length buf))
completion_request_at engine buf cursor = sql_request_at engine buf (min cursor (length buf))
