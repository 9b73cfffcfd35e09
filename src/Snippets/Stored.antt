-- ===== src/Snippets/Stored.antt =====
-- What a save leaves in the file of the saved queries.
use d9s.Base.{
  ◌≡◌, ◌⊎◌, false, List, [], ◌∷◌, Option, none, some, Bytes, inl, inr, if◌then◌else◌, equal, All,
}
use mathlib.Core.List.{map}
use d9s.Snippets.{Entry, Style, Storage, StoreError, Disk, trimmed, is_entry, load}
use d9s.Snippets.Printable.{IsPrintable, entry_of}

-- The entry of a name and a connection that a list holds first.
pub first_entry : Bytes → Bytes → List Entry → Option Entry
first_entry name connection [] = none
first_entry name connection (x ∷ xs) =
    if is_entry name connection x then some x else first_entry name connection xs

-- An entry as load leaves it.
abbrev Clean : Entry → Type 0
Clean e = (trimmed e ≡ e) × (equal (trimmed e).name [] ≡ false)

-- The entry that a file holds for a name and a connection.
pub entry_in : {E : Type 0} → StoreError E ⊎ List Entry → Bytes → Bytes → Option Entry
entry_in (inl err) n c = none
entry_in (inr es) n c = first_entry n c es

-- What a save did to a disk with a file: it succeeded and the file answers with the entry to its own
-- names and as before to all others, or it failed and left the file as it was. No temporary file is left.
abbrev pub Saved :
    {E : Type 0}
    → Storage E
    → Option Bytes
    → Entry
    → Bytes
    → Bytes
    → Disk × Option (StoreError E)
    → Type 0
Saved disk file e n c (after, none) =
    (after.temp ≡ none)
    × (entry_in (load disk after.file) n c
        ≡ (if is_entry n c (trimmed e) then some (trimmed e) else entry_in (load disk file) n c))
Saved disk file e n c (after, some err) = (after.temp ≡ none) × (after.file ≡ file)

module _ {E : Type 0} (disk : Storage E)
    (law : (ps : List (Entry × Style)) (raw : Bytes)
      → All IsPrintable ps
      → disk.encode ps ≡ inr raw
      → disk.decode raw ≡ inr (map entry_of ps)) where
  module _ (file : Option Bytes) (e : Entry) (n c : Bytes) where
    abbrev Wanted : List Entry → Type 0
    Wanted new =
        first_entry n c new
        ≡ (if is_entry n c (trimmed e) then some (trimmed e) else entry_in (load disk file) n c)

    -- What the calls on the temporary file leave: the file, or the new text in its place.
    Replaced : Bytes → Disk × Option (StoreError E) → Type 0
    Replaced raw (after, none) = after.file ≡ some raw
    Replaced raw (after, some err) = after.file ≡ file
