-- ===== src/Mcp/Cut.antt =====
-- cutBytes of internal/mcp/format.go, and guard of internal/mcp/server.go, through which every tool
-- answers.
use mathlib.Core.Bool.{false≢true}
use mathlib.Core.Path.{subst}
use d9s.Base.{
  sym, ◌∙◌, ℕ, zero, suc, ◌-◌, ◌≤◌, ◌<◌, ◌≡◌, refl, ap, Bool, true, false, not, ◌⊎◌, inl, inr, [],
  ◌∷◌, ◌++◌, none, some, Bytes, codes, arith, ltb, leb, within, if◌then◌else◌, Bool-cases, le→leb,
  lt→leb, length, get_elem?, take, length-append, length-take,
}
use d9s.Mcp.Redact.{Redactor, scrub}

-- cutMarker, an ellipsis in UTF-8 and "(cut)"
abbrev pub cut_marker : Bytes
cut_marker = 0xE2 ∷ 0x80 ∷ 0xA6 ∷ codes "(cut)"

-- utf8.RuneStart
abbrev pub is_rune_start : ℕ → Bool
is_rune_start b = not (within 0x80 0xBF b)

-- A rune starts at s[k], or the text has ended.
unfoldable pub starts_at : Bytes → ℕ → Bool
starts_at s k = elim (get_elem? s k) [ none ↦ true | some b ↦ is_rune_start b ]

-- for keep > 0 && !utf8.RuneStart(s[keep]) { keep-- }
unfoldable pub back_up : Bytes → ℕ → ℕ
back_up s zero = zero
back_up s (suc k) = elim (starts_at s (suc k)) [ true ↦ suc k | false ↦ back_up s k ]

-- cutBytes
unfoldable pub cut_bytes : Bytes → ℕ → Bytes × Bool
unfolding back_up starts_at
cut_bytes s limit =
    let marker = if ltb limit (length cut_marker) then [] else cut_marker in
    let keep = back_up s (limit - length marker) in
    if leb (length s) limit then (s, false) else (take keep s ++ marker, true)

-- MaxBytes and noticeReserve
abbrev pub max_bytes : ℕ
max_bytes = 102400

abbrev pub notice_reserve : ℕ
notice_reserve = 512

-- The notice of guard, with MaxBytes printed.
abbrev pub cap_notice : Bytes
cap_notice = codes "\nTruncated: the response reached the 102400-byte cap.\n"

-- What a tool returns, and what its handler answers: a text, or an error by its message
pub data Answer : Type 0 where
  text : Bytes → Answer
  failed : Bytes → Answer

-- guard, on the result of the tool's function
unfoldable pub guard : Redactor → Answer → Answer
guard red (failed e) = failed (scrub red e)
guard red (text t) =
    let c = cut_bytes (scrub red t) (max_bytes - notice_reserve) in
    if c.1 then text (c.0 ++ cap_notice) else text (scrub red t)

back_up-le : (s : Bytes) (k : ℕ) → back_up s k ≤ k
unfolding back_up
back_up-le s zero = omega arith
back_up-le s (suc k) = ground (arith, back_up-le s k)

back_up-start : (s : Bytes) (k : ℕ) → (back_up s k ≡ 0) ⊎ (starts_at s (back_up s k) ≡ true)
unfolding back_up
back_up-start s zero = inl refl
back_up-start s (suc k) = ground (arith, back_up-start s k)

abbrev pub marker_for : ℕ → Bytes
marker_for limit = if ltb limit (length cut_marker) then [] else cut_marker

abbrev kept : Bytes → ℕ → ℕ
kept s limit = back_up s (limit - length (marker_for limit))

cut_bytes_short : (s : Bytes) (limit : ℕ) → length s ≤ limit → cut_bytes s limit ≡ (s, false)
unfolding cut_bytes
cut_bytes_short s limit h = rw (le→leb (length s) limit h)

cut_bytes_long :
    (s : Bytes) (limit : ℕ)
    → limit < length s
    → cut_bytes s limit ≡ (take (kept s limit) s ++ marker_for limit, true)
unfolding cut_bytes
cut_bytes_long s limit h = rw (lt→leb limit (length s) h)

marker_for-le : (limit : ℕ) → length (marker_for limit) ≤ limit
marker_for-le limit = ground arith

-- cutBytes keeps the limit. A text within it is returned as it is; of any other it keeps a front part
-- that ends where a rune starts, or nothing, and then the marker if there is room for it.
pub cut_bytes_cases :
    (s : Bytes) (limit : ℕ)
    → (length (cut_bytes s limit).0 ≤ limit)
      × ((length s ≤ limit) × (cut_bytes s limit ≡ (s, false))
          ⊎ ((k : ℕ) × (k < length s)
              × ((k ≡ 0) ⊎ (starts_at s k ≡ true))
              × (cut_bytes s limit ≡ (take k s ++ marker_for limit, true))))
cut_bytes_cases s limit = elim (Bool-cases (leb (length s) limit)) [
  | inl e ↦
      let fits : length s ≤ limit = ground arith in
      let q = cut_bytes_short s limit fits in (rw q fits, inl (fits, q))
  | inr e ↦
      let over : limit < length s = ground arith in
      let q = cut_bytes_long s limit over in
      let k = kept s limit in
      let b = back_up-le s (limit - length (marker_for limit)) in
      let m = marker_for-le limit in
      let n = length-append (take k s) (marker_for limit) in
      (
        rw q (omega (arith, n, m, b, length-take k s)),
        inr (k, omega (arith, b), back_up-start s (limit - length (marker_for limit)), q),
      )
]

not_cut : (s : Bytes) (limit : ℕ) → (cut_bytes s limit).1 ≡ false → length s ≤ limit
not_cut s limit h = elim (cut_bytes_cases s limit).1 [
  | inl e ↦ e.0
  | inr e ↦ absurd (false≢true (sym h ∙ ap (λ r. r.1) e.3))
]

guard_cut :
    (red : Redactor) (t : Bytes)
    → (cut_bytes (scrub red t) (max_bytes - notice_reserve)).1 ≡ true
    → guard red (text t)
      ≡ text ((cut_bytes (scrub red t) (max_bytes - notice_reserve)).0 ++ cap_notice)
unfolding guard
guard_cut red t h = rw h

guard_whole :
    (red : Redactor) (t : Bytes)
    → (cut_bytes (scrub red t) (max_bytes - notice_reserve)).1 ≡ false
    → guard red (text t) ≡ text (scrub red t)
unfolding guard
guard_whole red t h = rw h

-- What leaves the server for an answer: of a text the scrubbed text, or a cut of it with the notice
-- behind, within the byte cap; of an error its scrubbed message, whatever its length.
pub Guarded : Redactor → Answer → Answer → Type 0
Guarded red (text t) (text out) =
    (length out ≤ max_bytes)
    × ((out ≡ scrub red t)
        ⊎ (out ≡ (cut_bytes (scrub red t) (max_bytes - notice_reserve)).0 ++ cap_notice))
Guarded red (text t) (failed out) = ⊥
Guarded red (failed e) (text out) = ⊥
Guarded red (failed e) (failed out) = out ≡ scrub red e

guard-text :
    (red : Redactor) (t out : Bytes)
    → guard red (text t) ≡ text out
    → Guarded red (text t) (text out)
    → Guarded red (text t) (guard red (text t))
guard-text red t out e h = subst (Guarded red (text t)) (sym e) h

-- Every answer of a tool leaves the server scrubbed. A text is within the byte cap as well: it is the
-- scrubbed text, or a cut of the scrubbed text with the notice behind. An error stays an error with the
-- scrubbed message, which is not cut.
pub guard-Guarded : (red : Redactor) (a : Answer) → Guarded red a (guard red a)
unfolding Guarded
guard-Guarded red (failed e) = unfold guard in refl
guard-Guarded red (text t) =
    let s = scrub red t in
    let limit : ℕ = max_bytes - notice_reserve in
    elim (Bool-cases (cut_bytes s limit).1) [
      | inl e ↦
          let c = (cut_bytes s limit).0 in
          guard-text red t (c ++ cap_notice) (guard_cut red t e)
            (omega (arith, length-append c cap_notice, (cut_bytes_cases s limit).0), inr refl)
      | inr e ↦
          guard-text red t s (guard_whole red t e) (omega (arith, not_cut s limit e), inl refl)
    ]
