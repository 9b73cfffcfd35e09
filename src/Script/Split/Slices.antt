-- ===== src/Script/Split/Slices.antt =====
-- The statements of a script are parts of it, in order.
use mathlib.Core.Path.{subst}
use d9s.Base.{
  ℕ, zero, suc, ◌+◌, ◌-◌, ◌≤◌, ◌<◌, ◌≡◌, ◌≢◌, sym, ap, ◌∙◌, Bool, true, false, not, ◌&&◌, inl, inr,
  List, [], ◌∷◌, ◌++◌, append_assoc, Bytes, arith, codes, Bool-cases, length, drop,
  take-append-drop, drop-nil, length-append, contains_byte, trim_space, IsTrimmed, trim_space_slice,
  trim_space-IsTrimmed,
}
use d9s.Script.Split.{slice, keep, meta_line, split_tokens, split_sql}
use d9s.Script.Token.{Token, TokenKind, is_punct_text}
use d9s.Script.Tokens.Sql.{tokenize_sql-Tiles}
use d9s.Script.Tokens.Tiling.{Tiles, done, gap, item}
use d9s.Script.Tokens.{tokenize_sql}

-- The texts stand in `s` one behind the other. None is empty, and none has blanks at its ends.
pub data Slices : Bytes → List Bytes → Type 0 where
  none_left : {s : Bytes} → Slices s []
  cut :
      {s : Bytes} (before stmt after : Bytes) {out : List Bytes}
      → s ≡ before ++ (stmt ++ after)
      → IsTrimmed stmt
      → stmt ≢ []
      → Slices after out
      → Slices s (stmt ∷ out)

Slices-further :
    {s : Bytes} {out : List Bytes} (front : Bytes) → Slices s out → Slices (front ++ s) out
Slices-further front none_left = none_left
Slices-further front (cut before stmt after e t ne r) =
    cut (front ++ before) stmt after
      (ap (λ x. front ++ x) e ∙ sym (append_assoc front before (stmt ++ after))) t ne r

drop-drop : (n m : ℕ) (s : Bytes) → drop n (drop m s) ≡ drop (m + n) s
drop-drop n zero s = ap (λ k. drop k s) (omega arith)
drop-drop n (suc m) [] = drop-nil n ∙ sym (drop-nil (suc m + n))
drop-drop n (suc m) (x ∷ s) =
    drop-drop n m s ∙ ap (λ k. drop k (x ∷ s)) (let e : suc (m + n) ≡ suc m + n = omega arith in e)

drop-slice : (s : Bytes) (a b : ℕ) → a ≤ b → drop a s ≡ slice s a b ++ drop b s
drop-slice s a b h =
    sym (take-append-drop (b - a) (drop a s))
    ∙ ap (λ x. slice s a b ++ x) (drop-drop (b - a) a s ∙ ap (λ k. drop k s) (omega arith))

Slices-earlier :
    (s : Bytes) (a b : ℕ) {out : List Bytes} → a ≤ b → Slices (drop b s) out → Slices (drop a s) out
Slices-earlier s a b {out} h r =
    subst (λ x. Slices x out) (sym (drop-slice s a b h)) (Slices-further (slice s a b) r)

keep_slice :
    (w : Bool) (x p stmt q rest : Bytes) (out : List Bytes)
    → x ≡ p ++ (stmt ++ q)
    → IsTrimmed stmt
    → Slices rest out
    → Slices (x ++ rest) (keep w stmt out)
unfolding keep
keep_slice w x p [] q rest out e t r = Slices-further x r
keep_slice false x p (c ∷ s) q rest out e t r = Slices-further x r
keep_slice true x p (c ∷ s) q rest out e t r =
    cut p (c ∷ s) (q ++ rest) (ap (λ y. y ++ rest) e ∙ simp append_assoc) t (cc)
      (Slices-further q r)

keep-Slices :
    (w : Bool) (x rest : Bytes) (out : List Bytes)
    → Slices rest out
    → Slices (x ++ rest) (keep w (trim_space x) out)
keep-Slices w x rest out r =
    let (p, q, e) = trim_space_slice x in
    keep_slice w x p (trim_space x) q rest out e (trim_space-IsTrimmed x) r

-- From `a` on, up to `n`, the tokens stand in order.
pub InOrder : ℕ → ℕ → List Token → Type 0
InOrder a n [] = a ≤ n
InOrder a n (t ∷ ts) = (a ≤ t.start) × (t.start < t.end) × InOrder t.end n ts

InOrder-earlier : (a b n : ℕ) (ts : List Token) → a ≤ b → InOrder b n ts → InOrder a n ts
unfolding InOrder
InOrder-earlier a b n [] h r = omega arith
InOrder-earlier a b n (t ∷ ts) h r = (omega arith, r.1, r.2)

InOrder-end : (a n : ℕ) (ts : List Token) → InOrder a n ts → a ≤ n
unfolding InOrder
InOrder-end a n [] h = h
InOrder-end a n (t ∷ ts) h = omega (arith, InOrder-end t.end n ts h.2)

Tiles-InOrder :
    {read : TokenKind → Bytes → Bytes} {i : ℕ} {s : Bytes} {ts : List Token}
    → Tiles read i s ts
    → (n : ℕ) → n ≡ i + length s
    → InOrder i n ts
unfolding InOrder
Tiles-InOrder done n e = omega arith
Tiles-InOrder {i} (gap c {ts = ts'} h r) n e =
    InOrder-earlier i (i + 1) n ts' (omega arith) (Tiles-InOrder r n (omega arith))
Tiles-InOrder (item t w {s} {ts = ts'} more a b j x cutoff r) n e =
    let k = ap length cutoff ∙ length-append w s in
    (
      omega arith,
      omega arith,
      subst (λ z. InOrder z n ts') (sym b) (Tiles-InOrder r n (omega arith)),
    )

meta_line-InOrder :
    (script : Bytes) (e n : ℕ) (ts : List Token)
    → InOrder e n ts
    → (e ≤ (meta_line script e ts).0)
      × InOrder (meta_line script e ts).0 n (meta_line script e ts).1
      × (length (meta_line script e ts).1 ≤ length ts)
unfolding meta_line InOrder
meta_line-InOrder script e n [] h = (omega arith, h, omega arith)
meta_line-InOrder script e n (t ∷ ts) h =
    let r = meta_line-InOrder script t.end n ts h.2 in
    elim (Bool-cases (contains_byte (slice script e t.start) b'\n')) [
      | inl a ↦ rw a (omega arith, h, omega arith)
      | inr a ↦ rw a (elim (Bool-cases (is_punct_text t (codes ";"))) [
        | inl b ↦ rw b (omega arith, h, omega arith)
        | inr b ↦ rw b (omega arith, r.1, omega arith)
      ])
    ]

-- The text from `a` to `b`, if it is kept, stands in front of what is found from `b` on.
keep_from :
    (w : Bool) (s : Bytes) (a b : ℕ) (out : List Bytes)
    → a ≤ b
    → Slices (drop b s) out
    → Slices (drop a s) (keep w (trim_space (slice s a b)) out)
keep_from w s a b out h r =
    subst (λ x. Slices x (keep w (trim_space (slice s a b)) out)) (sym (drop-slice s a b h))
      (keep-Slices w (slice s a b) (drop b s) out r)

split_tokens-Slices :
    (f : ℕ) (script : Bytes) (ts : List Token) (start pos : ℕ) (has_code : Bool)
    → start ≤ pos
    → InOrder pos (length script) ts
    → Slices (drop start script) (split_tokens f script ts start has_code)
unfolding split_tokens InOrder
split_tokens-Slices zero script ts start pos w h o =
    keep_from w script start (length script) []
      (omega (arith, InOrder-end pos (length script) ts o)) none_left
split_tokens-Slices (suc f) script [] start pos w h o =
    keep_from w script start (length script) [] (omega arith) none_left
split_tokens-Slices (suc f) script (t ∷ ts) start pos w h o =
    let line = meta_line script t.end ts in
    let m = meta_line-InOrder script t.end (length script) ts o.2 in
    elim (Bool-cases (not w && is_punct_text t (codes "\\"))) [
      | inl a ↦ rw a (
          Slices-earlier script start t.start (omega arith) (
            keep_from true script t.start line.0 _ (omega arith)
              (split_tokens-Slices f script line.1 line.0 line.0 false (omega arith) m.1)))
      | inr a ↦ rw a (elim (Bool-cases (is_punct_text t (codes ";"))) [
        | inl b ↦ rw b (
            keep_from w script start t.start _ (omega arith) (
              Slices-earlier script t.start t.end (omega arith)
                (split_tokens-Slices f script ts t.end t.end false (omega arith) o.2)))
        | inr b ↦ rw b (split_tokens-Slices f script ts start t.end _ (omega arith) o.2)
      ])
    ]

-- The statements of an SQL script are parts of it, in order and without overlap; none is empty, and
-- none has blanks at its ends.
pub split_sql-Slices : (b : Bool) (script : Bytes) → Slices script (split_sql script b)
unfolding split_sql
split_sql-Slices b script =
    split_tokens-Slices _ script (tokenize_sql script b) 0 0 false (omega arith)
      (Tiles-InOrder (tokenize_sql-Tiles b script) (length script) (omega arith))
