-- ===== src/Script/Split.antt =====
-- Split: cutting a script into statements.
pub mod Slices
pub mod Lines
pub mod Segments
use d9s.Base.{
  ℕ, zero, suc, ◌+◌, ◌-◌, ◌≡◌, refl, Bool, true, false, not, ◌&&◌, ◌||◌, List, [], ◌∷◌, ◌++◌, Bytes,
  codes, ◌==◌, if◌then◌else◌, length, take, drop, contains_byte, trim_space, has_prefix, equal,
}
use d9s.Script.Token.{
  EngineType, postgres, clickhouse, redis, is_clickhouse, Token, is_punct_text, is_comment,
}
use d9s.Script.Tokens.{tokenize_sql}

-- script[a:b]
abbrev pub slice : Bytes → ℕ → ℕ → Bytes
slice s a b = take (b - a) (drop a s)

-- if stmt != "" && wanted { out = append(out, stmt) }, in front of what follows
pub keep : Bool → Bytes → List Bytes → List Bytes
keep wanted [] out = out
keep wanted (c ∷ s) out = if wanted then (c ∷ s) ∷ out else out

-- The inner loop of splitSQL over a meta-command: where it ends, and the tokens behind it.
pub meta_line : Bytes → ℕ → List Token → ℕ × List Token
meta_line script end [] = (end, [])
meta_line script end (next ∷ ts) =
    let rest = meta_line script next.end ts in
    if contains_byte (slice script end next.start) b'\n'
    then (end, next ∷ ts)
    else if is_punct_text next (codes ";")
    then (end, next ∷ ts)
    else rest

-- The loop of splitSQL over the tokens. The fuel is the number of tokens left.
pub split_tokens : ℕ → Bytes → List Token → ℕ → Bool → List Bytes
split_tokens zero script ts start has_code =
    keep has_code (trim_space (slice script start (length script))) []
split_tokens (suc f) script [] start has_code =
    keep has_code (trim_space (slice script start (length script))) []
split_tokens (suc f) script (t ∷ ts) start has_code =
    let line = meta_line script t.end ts in
    let meta =
      keep true (trim_space (slice script t.start line.0))
        (split_tokens f script line.1 line.0 false) in
    let cut =
      keep has_code (trim_space (slice script start t.start))
        (split_tokens f script ts t.end false) in
    let on = split_tokens f script ts start (if not (is_comment t.kind) then true else has_code) in
    if not has_code && is_punct_text t (codes "\\")
    then meta
    else if is_punct_text t (codes ";")
    then cut
    else on

unfoldable pub split_sql : Bytes → Bool → List Bytes
unfolding split_tokens meta_line keep is_punct_text is_comment trim_space contains_byte
split_sql script backtick =
    let toks = tokenize_sql script backtick in split_tokens (length toks) script toks 0 false

-- strings.Split(script, "\n")
unfoldable pub split_lines : Bytes → Bytes → List Bytes
split_lines [] cur = cur ∷ []
split_lines (c ∷ s) cur =
    let ended = cur ∷ split_lines s [] in
    let longer = split_lines s (cur ++ c ∷ []) in if c == b'\n' then ended else longer

-- The loop of splitRedis over the lines.
pub redis_lines : List Bytes → List Bytes
redis_lines [] = []
redis_lines (line ∷ ls) =
    let t = trim_space line in
    let rest = redis_lines ls in if equal t [] || has_prefix t (codes "#") then rest else t ∷ rest

unfoldable pub split_redis : Bytes → List Bytes
unfolding redis_lines split_lines has_prefix trim_space equal
split_redis script = redis_lines (split_lines script [])

-- Split
unfoldable pub split : EngineType → Bytes → List Bytes
unfolding split_sql split_redis is_clickhouse
split redis script = split_redis script
split engine script = split_sql script (is_clickhouse engine)
