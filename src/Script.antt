-- ===== src/Script.antt =====
-- internal/db/split.go: cutting a script into statements, and telling the destructive ones.
pub mod Lexer
pub mod Token
pub mod Tokens
pub mod Split
pub mod Destructive
