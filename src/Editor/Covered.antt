-- ===== src/Editor/Covered.antt =====
-- What the spans of the editor cover, and in which colour.
use d9s.Base.{
  ℕ, ◌≤◌, ◌<◌, ◌≡◌, refl, sym, ap, ◌∙◌, Bool, true, false, ◌&&◌, List, [], ◌∷◌, Bytes, leb, ltb,
  ◌==◌, min, max, if◌then◌else◌, arith, inl, inr, Bool-cases,
}
use d9s.Script.Token.{EngineType, postgres, clickhouse, redis, unknown, Token, TokenKind}
use d9s.Script.Tokens.{tokenize}
use d9s.Script.Tokens.Redis.{tokenize_redis-Tiles}
use d9s.Script.Tokens.Sql.{tokenize_sql-Tiles}
use d9s.Script.Tokens.Tiling.{Tiles, done, gap, item}
use d9s.Editor.{
  SpanKind, plain, Span, same_kind, add_span, span_token, span_tokens, span_rest, spans_in,
}

-- Spans, the last one in front, that run from one position to another: none is empty, and each begins
-- where the one before it ends.
abbrev pub Chain : List Span → ℕ → ℕ → Type 0
Chain [] from to = from ≡ to
Chain (s ∷ out) from to = (s.end ≡ to) × (s.start < s.end) × Chain out from s.start

-- Tokens in order from a position on, none of them empty.
abbrev pub Ordered : ℕ → List Token → Type 0
Ordered low [] = Unit
Ordered low (t ∷ ts) = (low ≤ t.start) × (t.start < t.end) × Ordered t.end ts

abbrev pub inside : ℕ → ℕ → ℕ → Bool
inside start end p = leb start p && ltb p end

-- The colour of a position by the spans, and by the tokens.
abbrev pub shade : List Span → ℕ → SpanKind
shade [] p = plain
shade (s ∷ out) p = if inside s.start s.end p then s.kind else shade out p

abbrev pub paint : (Token → SpanKind) → List Token → ℕ → SpanKind
paint kind_of [] p = plain
paint kind_of (t ∷ ts) p = if inside t.start t.end p then kind_of t else paint kind_of ts p

same_kind_eq : (j k : SpanKind) → same_kind j k ≡ true → j ≡ k
unfolding same_kind
same_kind_eq j k h = ground arith

Chain-le : (out : List Span) (from to : ℕ) → Chain out from to → from ≤ to
Chain-le [] from to h = omega arith
Chain-le (s ∷ out) from to h = omega (arith, Chain-le out from s.start h.2)

Chain-add_span :
    (out : List Span) (from start end : ℕ) (k : SpanKind)
    → Chain out from start
    → start < end
    → Chain (add_span out start end k) from end
unfolding add_span
Chain-add_span [] from start end k h l = (refl, l, h)
Chain-add_span (s ∷ out) from start end k h l =
    elim (Bool-cases (same_kind s.kind k && s.end == start)) [
      | inl e ↦ rw e (refl, omega arith, h.2)
      | inr e ↦ rw e (refl, l, h)
    ]

shade-add_span :
    (out : List Span) (from start end : ℕ) (k : SpanKind) (p : ℕ)
    → Chain out from start
    → start < end
    → shade (add_span out start end k) p ≡ (if inside start end p then k else shade out p)
unfolding add_span
shade-add_span [] from start end k p h l = refl
shade-add_span (s ∷ out) from start end k p h l = ground (arith, same_kind_eq s.kind k)

-- Nothing of a chain is coloured behind its end.
shade_behind : (out : List Span) (from to p : ℕ) → Chain out from to → to ≤ p → shade out p ≡ plain
shade_behind [] from to p h l = refl
shade_behind (s ∷ out) from to p h l = ground (arith, shade_behind out from s.start p h.2)

-- The spans up to `at`, filled with plain text up to `start`.
abbrev pub fill : List Span → ℕ → ℕ → List Span
fill out at start = if ltb at start then add_span out at start plain else out

fill-Chain :
    (out : List Span) (from at start : ℕ)
    → Chain out from at
    → at ≤ start
    → Chain (fill out at start) from start
fill-Chain out from at start h l = elim (Bool-cases (ltb at start)) [
  | inl e ↦ rw e (Chain-add_span out from at start plain h (ground arith))
  | inr e ↦ let same : at ≡ start = ground arith in rw (e, sym same) h
]

fill-shade :
    (out : List Span) (from at start p : ℕ)
    → Chain out from at
    → shade (fill out at start) p ≡ shade out p
fill-shade out from at start p h = elim (Bool-cases (ltb at start)) [
  | inl e ↦
      rw (e, shade-add_span out from at start plain p h (ground arith)) ground
        (arith, shade_behind out from at p h)
  | inr e ↦ rw e refl
]

module _ (kind_of : Token → SpanKind) where
  paint_before :
      (low : ℕ) (ts : List Token) (p : ℕ) → Ordered low ts → p < low → paint kind_of ts p ≡ plain
  paint_before low [] p h l = refl
  paint_before low (t ∷ ts) p h l = ground (arith, paint_before t.end ts p h.2)

  -- The spans from one position to another with the colours of a list of tokens behind `at`.
  record Covers (from at to : ℕ) (ts : List Token) (out new : List Span) : Type 0 where
    pub chain : Chain new from to
    pub colour :
        (p : ℕ)
        → from ≤ p
        → p < to
        → shade new p ≡ (if ltb p at then shade out p else paint kind_of ts p)

  span_token-Chain :
      (from to at : ℕ) (out : List Span) (t : Token)
      → Chain out from at
      → at ≤ max t.start from
      → t.start < t.end
      → from < t.end
      → t.start < to
      → from < to
      → Chain (span_token kind_of from to out at t).0 from (min t.end to)
  unfolding span_token
  span_token-Chain from to at out t h k l m n o =
      Chain-add_span (fill out at (max t.start from)) from (max t.start from) (min t.end to)
        (kind_of t) (fill-Chain out from at (max t.start from) h k) (omega arith)

  span_token-shade :
      (from to at : ℕ) (out : List Span) (t : Token) (p : ℕ)
      → Chain out from at
      → at ≤ max t.start from
      → t.start < t.end
      → from < t.end
      → t.start < to
      → from < to
      → shade (span_token kind_of from to out at t).0 p
        ≡ (if inside (max t.start from) (min t.end to) p then kind_of t else shade out p)
  unfolding span_token
  span_token-shade from to at out t p h k l m n o =
      shade-add_span (fill out at (max t.start from)) from (max t.start from) (min t.end to)
        (kind_of t) p (fill-Chain out from at (max t.start from) h k) (omega arith)
      ∙ ap (λ c. if inside (max t.start from) (min t.end to) p then kind_of t else c)
          (fill-shade out from at (max t.start from) p h)

  rest-Covers :
      (from to at : ℕ) (out : List Span) (ts : List Token)
      → Chain out from at
      → at ≤ to
      → Ordered to ts
      → Covers from at to ts out (span_rest kind_of to (out, at))
  unfolding span_rest
  rest-Covers from to at out ts h k l = record {
    chain = fill-Chain out from at to h k;
    colour = λ p a b.
        fill-shade out from at to p h
        ∙ ground (arith, shade_behind out from at p h, paint_before to ts p l b);
  }

  -- A passed token colours nothing from `from` on.
  passed-Covers :
      (from at to : ℕ) (t : Token) (ts : List Token) (out new : List Span)
      → t.end ≤ from
      → Covers from at to ts out new
      → Covers from at to (t ∷ ts) out new
  passed-Covers from at to t ts out new h c = record {
    chain = c.chain;
    colour = λ p a b. c.colour p a b ∙ ground arith;
  }

  taken-Covers :
      (from at to low : ℕ) (t : Token) (ts : List Token) (out new : List Span)
      → Chain out from at
      → at ≤ max low from
      → Ordered low (t ∷ ts)
      → from < t.end
      → t.start < to
      → from < to
      → Covers from (min t.end to) to ts (span_token kind_of from to out at t).0 new
      → Covers from at to (t ∷ ts) out new
  taken-Covers from at to low t ts out new h k o m n l c = record {
    chain = c.chain;
    colour = λ p a b.
        c.colour p a b
        ∙ ground (
          arith,
          span_token-shade from to at out t p h (omega (arith, o.0)) o.1 m n l,
          shade_behind out from at p h,
          paint_before t.end ts p o.2,
          o.0,
          o.1,
        );
  }

  loop-Covers :
      (from to at low : ℕ) (out : List Span) (ts : List Token)
      → Chain out from at
      → at ≤ to
      → from < to
      → Ordered low ts
      → at ≤ max low from
      → Covers from at to ts out (span_rest kind_of to (span_tokens kind_of from to out at ts))
  unfolding span_tokens
  loop-Covers from to at low out [] h k l o m = rest-Covers from to at out [] h k tt
  loop-Covers from to at low out (t ∷ ts) h k l o m = elim (Bool-cases (leb t.end from)) [
    | inl e ↦
        let rest = loop-Covers from to at t.end out ts h k l o.2 (omega (arith, o.0, o.1)) in
        rw e (passed-Covers from at to t ts out _ (ground arith) rest)
    | inr e ↦
        let chain = λ (f : t.start < to).
          span_token-Chain from to at out t h (omega (arith, o.0)) o.1 (ground arith) f l in
        rw e (elim (Bool-cases (leb to t.start)) [
          | inl f ↦ rw f (rest-Covers from to at out (t ∷ ts) h k (ground arith, o.1, o.2))
          | inr f ↦
              let behind : t.start < to = ground arith in
              let rest =
                loop-Covers from to (min t.end to) t.end (span_token kind_of from to out at t).0 ts
                  (chain behind) (omega arith) l o.2 (omega arith) in
              rw f (taken-Covers from at to low t ts out _ h m o (ground arith) behind l rest)
        ])
  ]

Tiles-Ordered :
    {read : TokenKind → Bytes → Bytes} {i : ℕ} {s : Bytes} {ts : List Token} (low : ℕ)
    → Tiles read i s ts
    → low ≤ i
    → Ordered low ts
Tiles-Ordered low done l = tt
Tiles-Ordered low (gap c h r) l = Tiles-Ordered low r (omega arith)
Tiles-Ordered low (item t w more a b j x cutoff r) l =
    (omega arith, omega arith, Tiles-Ordered t.end r (omega arith))

tokenize-Ordered : (engine : EngineType) (buf : Bytes) → Ordered 0 (tokenize engine buf)
unfolding tokenize
tokenize-Ordered redis buf = Tiles-Ordered 0 (tokenize_redis-Tiles buf) (omega arith)
tokenize-Ordered postgres buf = Tiles-Ordered 0 (tokenize_sql-Tiles false buf) (omega arith)
tokenize-Ordered clickhouse buf = Tiles-Ordered 0 (tokenize_sql-Tiles true buf) (omega arith)
tokenize-Ordered (unknown w) buf = Tiles-Ordered 0 (tokenize_sql-Tiles _ buf) (omega arith)

-- The spans of a range of the buffer follow each other without a gap from its first place to its last,
-- none of them empty, and each place in it has the colour of the token that holds it, or the plain one
-- where no token does, whatever colour a token is given.
pub spans_in-Chain :
    (kind_of : Token → SpanKind) (engine : EngineType) (buf : Bytes) (from to p : ℕ)
    → from ≤ p
    → p < to
    → Chain (spans_in kind_of (tokenize engine buf) from to) from to
      × (shade (spans_in kind_of (tokenize engine buf) from to) p
          ≡ paint kind_of (tokenize engine buf) p)
unfolding spans_in
spans_in-Chain kind_of engine buf from to p m n =
    let same : max to from ≡ to = omega arith in
    let c =
      loop-Covers kind_of from to from 0 [] (tokenize engine buf) refl (omega arith) (omega arith)
        (tokenize-Ordered engine buf) (omega arith) in
    rw same (c.chain, c.colour p m n ∙ ground arith)
