-- ===== src/Mcp/Redact.antt =====
-- internal/mcp/redact.go: the redactor.
pub mod Scrubbed
use d9s.Base.{
  ℕ, ◌≡◌, refl, Bool, true, false, ◌||◌, List, [], ◌∷◌, ◌++◌, Bytes, codes, ltb, if◌then◌else◌,
  length, equal, replace_all,
}

-- redactedMarker
abbrev pub redacted_marker : Bytes
redacted_marker = codes "[redacted]"

-- minRedactLen
abbrev pub min_redact_len : ℕ
min_redact_len = 4

-- redactor; the state is its list of values.
abbrev pub Redactor : Type 0
Redactor = List Bytes

-- The loop of add over the known values.
unfoldable pub knows : Redactor → Bytes → Bool
knows [] v = false
knows (known ∷ values) v = equal known v || knows values v

-- add
unfoldable pub add : Redactor → Bytes → Redactor
unfolding knows
add values v =
    if ltb (length v) min_redact_len
    then values
    else if knows values v
    then values
    else values ++ v ∷ []

-- scrub
unfoldable pub scrub : Redactor → Bytes → Bytes
scrub [] s = s
scrub (v ∷ values) s = scrub values (replace_all s v redacted_marker)
