-- ===== src/Script/Tokens/Tiling.antt =====
-- What a tokenizer owes to its input, whatever the dialect: its tokens stand in order, each where
-- it says, and between them there are only blanks.
use d9s.Base.{
  ℕ, ◌+◌, ◌≤◌, ◌<◌, ◌≡◌, sym, true, List, [], ◌∷◌, ◌++◌, Option, none, some, Bytes, arith, length,
  take, drop, take-append-drop, length-take,
}
use d9s.Script.Lexer.{is_space_byte}
use d9s.Script.Token.{TokenKind, Token}
use mathlib.Core.Path.{subst}
use d9s.Script.Tokens.{Element, push_token}

-- `Tiles read i s ts`: the tokens `ts` cover `s`, which stands at position `i`. Of the bytes `w` of a
-- token of kind `k` the token's text is `read k w`.
pub data Tiles (read : TokenKind → Bytes → Bytes) : ℕ → Bytes → List Token → Type 0 where
  done : {i : ℕ} → Tiles read i [] []
  gap :
      {i : ℕ} (c : ℕ) {s : Bytes} {ts : List Token}
      → is_space_byte c ≡ true
      → Tiles read (i + 1) s ts
      → Tiles read i (c ∷ s) ts
  item :
      {i j : ℕ} (t : Token) (w : Bytes) {s s' : Bytes} {ts : List Token}
      → 0 < length w
      → t.start ≡ i
      → t.end ≡ j
      → j ≡ i + length w
      → t.text ≡ read t.kind w
      → s' ≡ w ++ s
      → Tiles read j s ts
      → Tiles read i s' (t ∷ ts)

-- What one round did at the byte `c` with `rest` behind it: it passed a blank or it cut a token off.
abbrev pub Covers : (TokenKind → Bytes → Bytes) → ℕ → ℕ → Bytes → ℕ → Option Token → Type 0
Covers read i c rest n none = (n ≡ 1) × (is_space_byte c ≡ true)
Covers read i c rest n (some t) =
    (t.start ≡ i) × (t.end ≡ i + n) × (t.text ≡ read t.kind (take n (c ∷ rest)))

abbrev pub IsElement : (TokenKind → Bytes → Bytes) → ℕ → ℕ → Bytes → Element → Type 0
IsElement read i c rest e = (1 ≤ e.1) × (e.1 ≤ length (c ∷ rest)) × Covers read i c rest e.1 e.0

module _ (read : TokenKind → Bytes → Bytes) where
  pub Tiles-push :
      (e : Option Token) (i n c : ℕ) (rest : Bytes) {ts : List Token}
      → IsElement read i c rest (e, n)
      → Tiles read (i + n) (drop n (c ∷ rest)) ts
      → Tiles read i (c ∷ rest) (push_token e ts)
  Tiles-push none i n c rest {ts} h r =
      gap c h.2.1 (subst (λ k. Tiles read (i + k) (drop k (c ∷ rest)) ts) h.2.0 r)
  Tiles-push (some t) i n c rest h r =
      item t (take n (c ∷ rest)) (omega (arith, length-take n (c ∷ rest))) h.2.0 h.2.1
        (omega (arith, length-take n (c ∷ rest))) h.2.2 (sym (take-append-drop n (c ∷ rest))) r
