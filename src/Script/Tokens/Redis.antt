-- ===== src/Script/Tokens/Redis.antt =====
-- tokenizeRedis loses nothing of the script.
use d9s.Base.{
  ℕ, zero, suc, ◌+◌, ◌≤◌, ◌≡◌, Bool, true, false, not, [], ◌∷◌, inl, inr, Bytes, arith, ◌==◌,
  Option-cases, length, drop, length-drop, index_byte, index_byte-lt,
}
use d9s.Script.Lexer.{is_space_byte, count_while, found_or_end}
use d9s.Script.Lexer.Bounds.{count_while-le}
use d9s.Script.Token.{TokenKind}
use d9s.Script.Tokens.{quoted_arg, redis_arg_end, redis_element, redis_tokens, tokenize_redis}
use d9s.Script.Tokens.Tiling.{Tiles, done, IsElement, Tiles-push}

-- Every Redis token keeps its text as it is written.
abbrev pub redis_text : TokenKind → Bytes → Bytes
redis_text _ w = w

quoted_arg-le : (q : ℕ) (s : Bytes) → quoted_arg q s ≤ length s
unfolding quoted_arg
quoted_arg-le q [] = omega arith
quoted_arg-le q (c ∷ []) = ground arith
quoted_arg-le q (c ∷ d ∷ s) = ground (arith, quoted_arg-le q s, quoted_arg-le q (d ∷ s))

redis_arg_end_bounds :
    (c : ℕ) (rest : Bytes)
    → is_space_byte c ≡ false
    → (1 ≤ redis_arg_end c rest) × (redis_arg_end c rest ≤ length (c ∷ rest))
unfolding redis_arg_end count_while
redis_arg_end_bounds c rest h =
    ground (arith, quoted_arg-le c rest, count_while-le (λ b. not (is_space_byte b)) rest)

line_bounds :
    (c : ℕ) (rest : Bytes)
    → (c == b'\n') ≡ false
    → (1 ≤ found_or_end (index_byte (c ∷ rest) b'\n') 0 (length (c ∷ rest)))
      × (found_or_end (index_byte (c ∷ rest) b'\n') 0 (length (c ∷ rest)) ≤ length (c ∷ rest))
unfolding found_or_end index_byte
line_bounds c rest h = elim (Option-cases (index_byte rest b'\n')) [
  | inl e ↦ ground arith
  | inr (k, e) ↦ ground (arith, index_byte-lt rest b'\n' k e)
]

redis_element-IsElement :
    (first : Bool) (i c : ℕ) (rest : Bytes)
    → IsElement redis_text i c rest (redis_element first i c rest).1
unfolding redis_element is_space_byte
redis_element-IsElement first i c rest =
    ground (arith, redis_arg_end_bounds c rest, line_bounds c rest)

redis_tokens-Tiles :
    (f : ℕ) (first : Bool) (i : ℕ) (s : Bytes)
    → length s ≤ f
    → Tiles redis_text i s (redis_tokens f first i s)
unfolding redis_tokens
redis_tokens-Tiles zero first i [] h = done
redis_tokens-Tiles zero first i (c ∷ s) h = absurd (omega arith)
redis_tokens-Tiles (suc f) first i [] h = done
redis_tokens-Tiles (suc f) first i (c ∷ s) h =
    let r = redis_element first i c s in
    let e = redis_element-IsElement first i c s in
    Tiles-push redis_text r.1.0 i r.1.1 c s e (
      redis_tokens-Tiles f r.0 (i + r.1.1) (drop r.1.1 (c ∷ s))
        (omega (arith, length-drop r.1.1 (c ∷ s))))

-- The tokens of a Redis script cover it: they stand in order, each where it says and with the text
-- that stands there, and every byte outside them is a blank.
pub tokenize_redis-Tiles : (s : Bytes) → Tiles redis_text 0 s (tokenize_redis s)
unfolding tokenize_redis
tokenize_redis-Tiles s = redis_tokens-Tiles (length s) true 0 s (omega arith)
