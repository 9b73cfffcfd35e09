-- ===== src/Mcp/Redact/Scrubbed.antt =====
-- No registered secret survives scrubbing.
use mathlib.Core.Bool.{false≢true}
use d9s.Base.{
  ℕ, zero, suc, ◌-◌, ◌≤◌, ◌≡◌, ◌≢◌, ◌∙◌, refl, sym, true, false, ◌||◌, inl, inr, List, [], ◌∷◌,
  ◌++◌, Bytes, codes, arith, Bool-cases, Lacks, length, equal, equal_iff, has_prefix, contains,
  replace_from, replace_from_hit, replace_from_miss, replace_from_skip, replace_all,
}
use d9s.Mcp.Redact.{redacted_marker, min_redact_len, Redactor, knows, add, scrub}

-- A secret that cannot be spelled by the marker, alone or together with the text around it: it holds no
-- bracket, and is no part of the word in the marker.
pub record IsScrubbable (v : Bytes) : Type 0 where
  pub not_empty : v ≢ []
  pub no_open : Lacks b'[' v
  pub no_close : Lacks b']' v
  pub no_part : contains (codes "[redacted") v ≡ false

-- A text in front of the result stands in front of the original, if it does not begin like the marker.
prefix_kept :
    (w v s : Bytes)
    → Lacks b'[' v
    → has_prefix (replace_from w redacted_marker 0 s) v ≡ true
    → has_prefix s v ≡ true
unfolding has_prefix
prefix_kept w [] s n h = refl
prefix_kept w (x ∷ v) [] n h = unfold replace_from in h
prefix_kept w (x ∷ v) (c ∷ s) n h = elim (Bool-cases (has_prefix (c ∷ s) w)) [
  | inl e ↦ ground (arith, replace_from_hit w redacted_marker c s e, n)
  | inr e ↦ ground (arith, replace_from_miss w redacted_marker c s e, prefix_kept w v s n.1)
]

-- A text without a closing bracket does not reach over one.
prefix_before_close :
    (m v rest : Bytes)
    → Lacks b']' v
    → has_prefix (m ++ (b']' ∷ rest)) v ≡ true
    → has_prefix m v ≡ true
unfolding has_prefix
prefix_before_close m [] rest n h = refl
prefix_before_close [] (x ∷ v) rest n h = ground arith
prefix_before_close (c ∷ m) (x ∷ v) rest n h = ground (arith, prefix_before_close m v rest n.1)

contains_past_close :
    (m v rest : Bytes)
    → Lacks b']' v
    → v ≢ []
    → contains m v ≡ false
    → contains rest v ≡ false
    → contains (m ++ (b']' ∷ rest)) v ≡ false
unfolding contains has_prefix
contains_past_close [] [] rest n e h k = absurd (e refl)
contains_past_close [] (x ∷ v) rest n e h k = ground arith
contains_past_close (c ∷ m) v rest n e h k =
    ground (arith, contains_past_close m v rest n e, prefix_before_close (c ∷ m) v rest n)

contains_past_marker :
    (v rest : Bytes)
    → IsScrubbable v
    → contains rest v ≡ false
    → contains (redacted_marker ++ rest) v ≡ false
contains_past_marker v rest i k =
    contains_past_close (codes "[redacted") v rest i.no_close i.not_empty i.no_part k

prefix_absent :
    (w v s : Bytes)
    → Lacks b'[' v
    → has_prefix s v ≡ false
    → has_prefix (replace_from w redacted_marker 0 s) v ≡ false
prefix_absent w v s n h = elim (Bool-cases (has_prefix (replace_from w redacted_marker 0 s) v)) [
  | inl e ↦ absurd (false≢true (sym h ∙ prefix_kept w v s n e))
  | inr e ↦ e
]

contains_cons :
    (c : ℕ) (s v : Bytes)
    → contains (c ∷ s) v ≡ false
    → (has_prefix (c ∷ s) v ≡ false) × (contains s v ≡ false)
unfolding contains
contains_cons c s v h = ground arith

cons_contains :
    (c : ℕ) (s v : Bytes)
    → has_prefix (c ∷ s) v ≡ false
    → contains s v ≡ false
    → contains (c ∷ s) v ≡ false
unfolding contains
cons_contains c s v h k = ground arith

-- A byte that is kept, in front of a text.
kept_byte :
    (w v : Bytes) (c : ℕ) (s : Bytes)
    → IsScrubbable v
    → has_prefix (c ∷ s) w ≡ false
    → has_prefix (c ∷ s) v ≡ false
    → contains (replace_from w redacted_marker 0 s) v ≡ false
    → contains (replace_from w redacted_marker 0 (c ∷ s)) v ≡ false
kept_byte w v c s i e h k =
    let front = replace_from_miss w redacted_marker c s e in
    rw front (cons_contains c _ v (rw front at (prefix_absent w v (c ∷ s) i.no_open h)) k)

-- Replacing another text brings no scrubbable text in.
replace_from_keeps :
    (w v : Bytes) (k : ℕ) (s : Bytes)
    → IsScrubbable v
    → contains s v ≡ false
    → contains (replace_from w redacted_marker k s) v ≡ false
replace_from_keeps w v k [] i h = unfold replace_from in h
replace_from_keeps w v (suc k) (c ∷ s) i h =
    rw replace_from_skip (replace_from_keeps w v k s i (contains_cons c s v h).1)
replace_from_keeps w v zero (c ∷ s) i h =
    let parts = contains_cons c s v h in
    let marked = replace_from_keeps w v (length w - 1) s i parts.1 in
    let plain = replace_from_keeps w v 0 s i parts.1 in
    elim (Bool-cases (has_prefix (c ∷ s) w)) [
      | inl e ↦ rw (replace_from_hit w redacted_marker c s e) (contains_past_marker v _ i marked)
      | inr e ↦ kept_byte w v c s i e parts.0 plain
    ]

empty_lacks : (v : Bytes) → v ≢ [] → contains [] v ≡ false
unfolding contains has_prefix
empty_lacks [] h = absurd (h refl)
empty_lacks (x ∷ v) h = refl

-- Replacing a scrubbable text leaves none of it.
replace_from_removes :
    (v : Bytes) (k : ℕ) (s : Bytes)
    → IsScrubbable v
    → contains (replace_from v redacted_marker k s) v ≡ false
replace_from_removes v k [] i = unfold replace_from in (empty_lacks v i.not_empty)
replace_from_removes v (suc k) (c ∷ s) i = rw replace_from_skip (replace_from_removes v k s i)
replace_from_removes v zero (c ∷ s) i =
    let marked = replace_from_removes v (length v - 1) s i in
    let plain = replace_from_removes v 0 s i in
    elim (Bool-cases (has_prefix (c ∷ s) v)) [
      | inl e ↦ rw (replace_from_hit v redacted_marker c s e) (contains_past_marker v _ i marked)
      | inr e ↦ kept_byte v v c s i e e plain
    ]

scrub_keeps :
    (values : Redactor) (s v : Bytes)
    → IsScrubbable v
    → contains s v ≡ false
    → contains (scrub values s) v ≡ false
unfolding scrub replace_all
scrub_keeps [] s v i h = h
scrub_keeps (w ∷ values) s v i h =
    scrub_keeps values (replace_all s w redacted_marker) v i (replace_from_keeps w v 0 s i h)

scrub_known :
    (values : Redactor) (s v : Bytes)
    → IsScrubbable v
    → knows values v ≡ true
    → contains (scrub values s) v ≡ false
unfolding scrub knows replace_all
scrub_known [] s v i h = cc
scrub_known (w ∷ values) s v i h = elim (Bool-cases (equal w v)) [
  | inl e ↦
      scrub_keeps values (replace_all s w redacted_marker) v i
        (rw ((equal_iff w v).0 e) (replace_from_removes v 0 s i))
  | inr e ↦ scrub_known values (replace_all s w redacted_marker) v i (ground arith)
]

knows-append : (xs ys : Redactor) (v : Bytes) → knows (xs ++ ys) v ≡ (knows xs v || knows ys v)
unfolding knows
knows-append [] ys v = refl
knows-append (x ∷ xs) ys v = ground (arith, knows-append xs ys v)

add-knows :
    (values : Redactor) (v : Bytes) → min_redact_len ≤ length v → knows (add values v) v ≡ true
unfolding add knows
add-knows values v h = ground (arith, knows-append values (v ∷ []) v, equal_iff v v)

add_still_knows :
    (values : Redactor) (v w : Bytes) → knows values v ≡ true → knows (add values w) v ≡ true
unfolding add
add_still_knows values v w h = ground (arith, knows-append values (w ∷ []) v)

-- Registering one value after another.
abbrev pub add_all : Redactor → List Bytes → Redactor
add_all values [] = values
add_all values (w ∷ ws) = add_all (add values w) ws

add_all_still_knows :
    (ws : List Bytes) (values : Redactor) (v : Bytes)
    → knows values v ≡ true
    → knows (add_all values ws) v ≡ true
add_all_still_knows [] values v h = h
add_all_still_knows (w ∷ ws) values v h =
    add_all_still_knows ws (add values w) v (add_still_knows values v w h)

-- A secret of four bytes or more that holds no bracket and is no part of the marker's word is in no text
-- that has been scrubbed, whatever the text, and whatever was registered before and after the secret.
pub scrub-add :
    (before : Redactor) (after : List Bytes) (s v : Bytes)
    → min_redact_len ≤ length v
    → IsScrubbable v
    → contains (scrub (add_all (add before v) after) s) v ≡ false
scrub-add before after s v h i =
    scrub_known _ s v i (add_all_still_knows after (add before v) v (add-knows before v h))
