-- ===== src/Script/Split/Segments.antt =====
-- splitSQL against a description with no state: a script with no meta-command is cut at the semicolon
-- tokens, and the parts that hold code are kept.
use d9s.Base.{
  ℕ, zero, suc, ◌≤◌, ◌≡◌, ◌∙◌, refl, ap, sym, Bool, true, false, not, ◌||◌, List, [], ◌∷◌, Bytes,
  codes, arith, if◌then◌else◌, All, length, trim_space,
}
use d9s.Script.Split.{slice, keep, split_tokens, split_sql}
use d9s.Script.Token.{Token, is_punct_text, is_comment}
use d9s.Script.Tokens.{tokenize_sql}

abbrev pub is_semicolon : Token → Bool
is_semicolon t = is_punct_text t (codes ";")

abbrev pub is_backslash : Token → Bool
is_backslash t = is_punct_text t (codes "\\")

-- A part of the script between two semicolons: where it begins and ends, and whether it holds code.
pub record Segment : Type 0 where
  from : ℕ
  to : ℕ
  has_code : Bool

-- A token belongs to the first segment.
add_token : Token → List Segment → List Segment
add_token t [] = []
add_token t (g ∷ gs) = record g { has_code = not (is_comment t.kind) || g.has_code } ∷ gs

-- The texts of the segments that hold code, trimmed, and without those that are blank.
pub texts : Bytes → List Segment → List Bytes
texts script [] = []
texts script (g ∷ gs) = keep g.has_code (trim_space (slice script g.from g.to)) (texts script gs)

-- The first segment holds code already.
mark : Bool → List Segment → List Segment
mark w [] = []
mark w (g ∷ gs) = record g { has_code = w || g.has_code } ∷ gs

-- The segments of a script of `n` bytes by its tokens, when the first one begins at `start`.
pub segments : ℕ → List Token → ℕ → List Segment
segments n [] start = record { from = start; to = n; has_code = false } ∷ []
segments n (t ∷ ts) start =
    if is_semicolon t
    then record { from = start; to = t.start; has_code = false } ∷ segments n ts t.end
    else add_token t (segments n ts start)

mark-false : (gs : List Segment) → mark false gs ≡ gs
unfolding mark
mark-false [] = refl
mark-false (g ∷ gs) = refl

mark-add_token :
    (w : Bool) (t : Token) (gs : List Segment)
    → mark w (add_token t gs) ≡ mark (if not (is_comment t.kind) then true else w) gs
unfolding mark add_token
mark-add_token w t [] = refl
mark-add_token w t (g ∷ gs) = ground arith

or-false : (w : Bool) → (w || false) ≡ w
or-false true = refl
or-false false = refl

split_tokens-texts :
    (f : ℕ) (script : Bytes) (ts : List Token) (start : ℕ) (w : Bool)
    → length ts ≤ f
    → All (λ t. is_backslash t ≡ false) ts
    → split_tokens f script ts start w ≡ texts script (mark w (segments (length script) ts start))
unfolding split_tokens texts segments mark
split_tokens-texts zero script [] start w h o = ap (λ x. keep x _ []) (sym (or-false w))
split_tokens-texts zero script (t ∷ ts) start w h o = absurd (omega arith)
split_tokens-texts (suc f) script [] start w h o = ap (λ x. keep x _ []) (sym (or-false w))
split_tokens-texts (suc f) script (t ∷ ts) start w h o =
    let on = if not (is_comment t.kind) then true else w in
    ground (
      arith,
      or-false w,
      mark-false (segments (length script) ts t.end),
      mark-add_token w t (segments (length script) ts start),
      split_tokens-texts f script ts t.end false (omega arith) o.1,
      split_tokens-texts f script ts start on (omega arith) o.1,
    )

-- A script without meta-commands is cut at its semicolon tokens, and the parts that hold a token other
-- than a comment, trimmed, are its statements, unless they are blank.
pub split_sql-texts :
    (b : Bool) (script : Bytes)
    → All (λ t. is_backslash t ≡ false) (tokenize_sql script b)
    → split_sql script b ≡ texts script (segments (length script) (tokenize_sql script b) 0)
unfolding split_sql
split_sql-texts b script o =
    split_tokens-texts _ script (tokenize_sql script b) 0 false (omega arith) o
    ∙ ap (texts script) (mark-false (segments (length script) (tokenize_sql script b) 0))
