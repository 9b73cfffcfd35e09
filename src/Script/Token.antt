-- ===== src/Script/Token.antt =====
-- The tokens of internal/db/split.go, and the engines of internal/config that choose a dialect.
use d9s.Base.{ℕ, Bool, true, false, Bytes, ◌&&◌, equal}

-- config.EngineType, a string type: the three engines, and any other string
pub data EngineType : Type 0 where
  postgres clickhouse redis : EngineType
  unknown : Bytes → EngineType

unfoldable pub is_clickhouse : EngineType → Bool
is_clickhouse clickhouse = true
is_clickhouse _ = false

pub data TokenKind : Type 0 where
  word quoted string number comment command punct : TokenKind

pub record Token : Type 0 where
  pub kind : TokenKind
  pub start : ℕ
  pub end : ℕ
  pub text : Bytes

unfoldable pub is_punct : TokenKind → Bool
is_punct punct = true
is_punct _ = false

unfoldable pub is_comment : TokenKind → Bool
is_comment comment = true
is_comment _ = false

unfoldable pub is_word : TokenKind → Bool
is_word word = true
is_word _ = false

-- t.Kind == TokenPunct && t.Text == text
unfoldable pub is_punct_text : Token → Bytes → Bool
unfolding is_punct
is_punct_text t text = is_punct t.kind && equal t.text text
