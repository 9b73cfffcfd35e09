-- ===== src/Secrets/Reference.antt =====
-- internal/secrets/onepassword.go: the reference of one field of an item.
use d9s.Base.{
  ℕ, Bool, true, false, ◌&&◌, ◌||◌, List, [], ◌∷◌, ◌++◌, Bytes, codes, ◌==◌, within, if◌then◌else◌,
  ◌⊎◌, inl, inr, equal, to_upper,
}

pub record Vault : Type 0 where
  pub id : Bytes
  pub name : Bytes

pub record Item : Type 0 where
  pub id : Bytes
  pub title : Bytes
  pub category : Bytes

pub record Field : Type 0 where
  pub id : Bytes
  pub label : Bytes
  pub kind : Bytes
  pub purpose : Bytes
  pub section : Bytes
  pub reference : Bytes

-- Concealed: strings.EqualFold with two words, in the upper case that tells them apart.
unfoldable pub is_concealed : Field → Bool
unfolding equal to_upper
is_concealed f =
    equal (to_upper f.kind) (codes "CONCEALED") || equal (to_upper f.purpose) (codes "PASSWORD")

-- The class of referenceSafe.
unfoldable pub is_safe_byte : ℕ → Bool
is_safe_byte c =
    (within b'a' b'z' c || (within b'A' b'Z' c || within b'0' b'9' c))
    || ((c == b'.' || c == b'_') || (c == b'-' || c == b' '))

unfoldable pub all_safe : Bytes → Bool
unfolding is_safe_byte
all_safe [] = true
all_safe (c ∷ s) = is_safe_byte c && all_safe s

-- referenceSafe.MatchString
unfoldable pub reference_safe : Bytes → Bool
unfolding all_safe
reference_safe [] = false
reference_safe (c ∷ s) = all_safe (c ∷ s)

-- The parts of a reference, and what one of them fails with.
pub data Part : Type 0 where
  vault item section field : Part

pub data PartError : Type 0 where
  nothing_to_name : Part → PartError
  no_usable_id : Part → Bytes → PartError

abbrev pub part_error : Part → Bytes → PartError
part_error kind [] = nothing_to_name kind
part_error kind (c ∷ name) = no_usable_id kind (c ∷ name)

-- referencePart
unfoldable pub reference_part : Part → Bytes → Bytes → PartError ⊎ Bytes
unfolding reference_safe
reference_part kind name id =
    if reference_safe name
    then inr name
    else if reference_safe id
    then inr id
    else inl (part_error kind name)

-- A part in front of the parts that follow it; the first one that fails ends the reference.
unfoldable pub before : PartError ⊎ Bytes → PartError ⊎ List Bytes → PartError ⊎ List Bytes
before (inl err) parts = inl err
before (inr part) (inl err) = inl err
before (inr part) (inr parts) = inr (part ∷ parts)

unfoldable pub with_section : Bytes → PartError ⊎ List Bytes → PartError ⊎ List Bytes
unfolding before reference_part
with_section [] parts = parts
with_section (c ∷ label) parts = before (reference_part section (c ∷ label) []) parts

-- strings.Join with a slash
unfoldable pub slashed : List Bytes → Bytes
slashed [] = []
slashed (p ∷ []) = p
slashed (p ∷ q ∷ parts) = p ++ (b'/' ∷ slashed (q ∷ parts))

unfoldable pub built : PartError ⊎ List Bytes → PartError ⊎ Bytes
unfolding slashed
built (inl err) = inl err
built (inr parts) = inr (codes "op://" ++ slashed parts)

unfoldable pub assembled : Vault → Item → Field → PartError ⊎ List Bytes
unfolding before with_section reference_part
assembled v i f = before (reference_part vault v.name v.id) (
    before (reference_part item i.title i.id)
      (with_section f.section (before (reference_part field f.label f.id) (inr []))))

abbrev pub or_built : Bytes → PartError ⊎ Bytes → PartError ⊎ Bytes
or_built [] made = made
or_built (c ∷ reference) made = inr (c ∷ reference)

-- Reference
unfoldable pub reference_of : Vault → Item → Field → PartError ⊎ Bytes
unfolding built assembled
reference_of v i f = or_built f.reference (built (assembled v i f))
