-- ===== src/Script/Destructive/Words.antt =====
-- What decides that an SQL statement is destructive.
use d9s.Base.{
  ℕ, ◌+◌, ◌-◌, ◌≡◌, ◌∙◌, refl, ap, Bool, true, false, List, [], ◌∷◌, ◌++◌, append_assoc, codes,
  arith, if◌then◌else◌, equal_iff,
}
use d9s.Script.Destructive.{top_words}
use d9s.Script.Token.{Token, is_punct_text}

abbrev pub opens : Token → Bool
opens t = is_punct_text t (codes "(")

abbrev pub closes : Token → Bool
closes t = is_punct_text t (codes ")")

-- Tokens in which every parenthesis has its partner.
pub data IsBalanced : List Token → Type 0 where
  empty : IsBalanced []
  plain :
      (t : Token) {ts : List Token}
      → opens t ≡ false
      → closes t ≡ false
      → IsBalanced ts
      → IsBalanced (t ∷ ts)
  group :
      (o c : Token) {inner ts all : List Token}
      → opens o ≡ true
      → closes c ≡ true
      → IsBalanced inner
      → IsBalanced ts
      → all ≡ o ∷ (inner ++ (c ∷ ts))
      → IsBalanced all

not_both : (t : Token) → closes t ≡ true → opens t ≡ false
unfolding is_punct_text
not_both t h = ground (arith, equal_iff t.text (codes ")"), equal_iff t.text (codes "("))

top_words_open :
    (o : Token) (d : ℕ) (ts : List Token)
    → opens o ≡ true
    → top_words d (o ∷ ts) ≡ top_words (d + 1) ts
unfolding top_words
top_words_open o d ts h = rw h

top_words_close :
    (c : Token) (d : ℕ) (ts : List Token)
    → closes c ≡ true
    → top_words (d + 1) (c ∷ ts) ≡ top_words d ts
unfolding top_words
top_words_close c d ts h = rw (not_both c h, h) (ap (λ k. top_words k ts) (omega arith))

top_words_plain :
    (t : Token) (d : ℕ) (ts : List Token)
    → opens t ≡ false
    → closes t ≡ false
    → top_words (d + 1) (t ∷ ts) ≡ top_words (d + 1) ts
unfolding top_words
top_words_plain t d ts h k = ground arith

top_words_inside :
    {g : List Token}
    → IsBalanced g
    → (d : ℕ) (ts : List Token) → top_words (d + 1) (g ++ ts) ≡ top_words (d + 1) ts
top_words_inside empty d ts = refl
top_words_inside (plain t {ts = r} h k b) d ts =
    top_words_plain t d (r ++ ts) h k ∙ top_words_inside b d ts
top_words_inside (group o c {inner} {ts = r} h k b b' e) d ts =
    ap (λ x. top_words (d + 1) (x ++ ts)) e
    ∙ top_words_open o (d + 1) ((inner ++ (c ∷ r)) ++ ts) h
    ∙ ap (top_words (d + 1 + 1)) (append_assoc inner (c ∷ r) ts)
    ∙ top_words_inside b (d + 1) (c ∷ (r ++ ts))
    ∙ top_words_close c (d + 1) (r ++ ts) k
    ∙ top_words_inside b' d ts

top_words_cong :
    (t : Token) (d : ℕ) (xs ys : List Token)
    → ((k : ℕ) → top_words k xs ≡ top_words k ys)
    → top_words d (t ∷ xs) ≡ top_words d (t ∷ ys)
unfolding top_words
top_words_cong t d xs ys h = rw (h (if opens t then d + 1 else if closes t then d - 1 else d))

-- A balanced group in parentheses contributes no top-level word, wherever it stands: at any depth, and
-- whatever comes before and after it.
pub top_words_group :
    (d : ℕ) (before inner after : List Token) (o c : Token)
    → opens o ≡ true
    → closes c ≡ true
    → IsBalanced inner
    → top_words d (before ++ (o ∷ (inner ++ (c ∷ after)))) ≡ top_words d (before ++ after)
top_words_group d [] inner after o c h k b =
    top_words_open o d (inner ++ (c ∷ after)) h
    ∙ top_words_inside b d (c ∷ after)
    ∙ top_words_close c d after k
top_words_group d (t ∷ before) inner after o c h k b =
    top_words_cong t d _ _ (λ m. top_words_group m before inner after o c h k b)
