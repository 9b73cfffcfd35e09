-- ===== src/Snippets.antt =====
-- internal/snippets/snippets.go: the saved queries. The codec is gopkg.in/yaml.v3 on the list of entries,
-- each with the style of its query. The disk has the file, or none when it is missing, and the temporary
-- file next to it; reading a file that there is is taken to succeed.
pub mod Stored
pub mod Printable
use d9s.Base.{
  ℕ, zero, suc, ◌+◌, Bool, true, false, not, ◌&&◌, ◌||◌, List, [], ◌∷◌, Option, none, some, Bytes,
  codes, ◌==◌, if◌then◌else◌, ◌⊎◌, inl, inr, equal, contains, contains_byte, to_lower, to_upper,
  trim_space, take, drop,
}
use d9s.Script.Split.{split_lines}

pub record Entry : Type 0 where
  pub name : Bytes
  pub connection : Bytes
  pub query : Bytes

pub data Scope : Type 0 where
  global of_connection : Scope

-- Scope.String
unfoldable pub scope_text : Scope → Bytes
scope_text global = codes "global"
scope_text of_connection = codes "connection"

pub record Scoped : Type 0 where
  pub entry : Entry
  pub scope : Scope

abbrev pub is_gap : ℕ → Bool
is_gap c = c == b' ' || c == b'\t'

-- strings.TrimRight(line, " \t") != line
unfoldable pub ends_in_gap : Bytes → Bool
ends_in_gap [] = false
ends_in_gap (c ∷ []) = is_gap c
ends_in_gap (c ∷ d ∷ s) = ends_in_gap (d ∷ s)

-- The loop of literalSafe.
unfoldable pub lines_safe : List Bytes → Bool
unfolding ends_in_gap contains_byte
lines_safe [] = true
lines_safe (line ∷ lines) =
    not (ends_in_gap line) && (not (contains_byte line b'\r') && lines_safe lines)

abbrev pub begins_safe : List Bytes → Bool
begins_safe [] = false
begins_safe ([] ∷ lines) = false
begins_safe ((c ∷ s) ∷ lines) = not (is_gap c)

-- literalSafe
unfoldable pub literal_safe : Bytes → Bool
unfolding contains_byte split_lines lines_safe
literal_safe s =
    contains_byte s b'\n' && (begins_safe (split_lines s []) && lines_safe (split_lines s []))

-- The style of a query in the file.
pub data Style : Type 0 where
  literal double_quoted unstyled : Style

-- The style that MarshalYAML gives to a query.
unfoldable pub query_style : Bytes → Style
unfolding literal_safe contains_byte
query_style query =
    if literal_safe query
    then literal
    else if contains_byte query b'\n'
    then double_quoted
    else unstyled

-- MarshalYAML, on each entry of the file.
unfoldable pub styled : List Entry → List (Entry × Style)
unfolding query_style
styled [] = []
styled (e ∷ es) = (e, query_style e.query) ∷ styled es

-- yaml.Marshal and yaml.Unmarshal, and what the machine answers to each call of write. A write that fails
-- has put `written` bytes into the file.
pub record Storage (E : Type 0) : Type 0 where
  pub encode : List (Entry × Style) → E ⊎ Bytes
  pub decode : Bytes → E ⊎ List Entry
  pub make_dir : Option E
  pub create_temp : Option E
  pub write_temp : Option E
  pub written : ℕ
  pub chmod : Option E
  pub sync : Option E
  pub close : Option E
  pub rename : Option E

-- ErrExists, ErrNotFound, an entry without a name, and the errors of the storage
pub data StoreError (E : Type 0) : Type 0 where
  exists not_found needs_name : StoreError E
  parsing encoding making_dir creating_temp writing permissions flushing closing replacing :
      E → StoreError E

-- The file of the queries and the temporary file, as far as they are there.
pub record Disk : Type 0 where
  pub file : Option Bytes
  pub temp : Option Bytes

abbrev pub only_file : Option Bytes → Disk
only_file file = record { file = file; temp = none }

-- An entry with the blanks around its name and its connection gone.
unfoldable pub trimmed : Entry → Entry
unfolding trim_space
trimmed e = record e { name = trim_space e.name; connection = trim_space e.connection }

-- The loop of load.
unfoldable pub named : List Entry → List Entry
unfolding trimmed equal
named [] = []
named (e ∷ es) = let rest = named es in if equal (trimmed e).name [] then rest else trimmed e ∷ rest

-- strings.EqualFold, on ASCII, and the connection
unfoldable pub is_entry : Bytes → Bytes → Entry → Bool
unfolding equal to_lower
is_entry name connection e =
    equal e.connection connection && equal (to_lower e.name) (to_lower name)

abbrev pub next_index : Option ℕ → Option ℕ
next_index none = none
next_index (some i) = some (suc i)

-- indexOf; none is -1
unfoldable pub index_of : Bytes → Bytes → List Entry → Option ℕ
unfolding is_entry
index_of name connection [] = none
index_of name connection (e ∷ es) =
    let rest = next_index (index_of name connection es) in
    if is_entry name connection e then some 0 else rest

-- entries[i] = e
unfoldable pub set_at : ℕ → Entry → List Entry → List Entry
set_at i e [] = []
set_at zero e (x ∷ xs) = e ∷ xs
set_at (suc i) e (x ∷ xs) = x ∷ set_at i e xs

-- slices.Delete(entries, i, i+1)
unfoldable pub delete_at : ℕ → List Entry → List Entry
delete_at i [] = []
delete_at zero (x ∷ xs) = xs
delete_at (suc i) (x ∷ xs) = x ∷ delete_at i xs

abbrev pub add_last : Entry → List Entry → List Entry
add_last e [] = e ∷ []
add_last e (x ∷ xs) = x ∷ add_last e xs

module _ {E : Type 0} (disk : Storage E) where
  unfoldable pub decoded : E ⊎ List Entry → StoreError E ⊎ List Entry
  unfolding named
  decoded (inl err) = inl (parsing err)
  decoded (inr es) = inr (named es)

  -- load, on the bytes of the file
  unfoldable pub load : Option Bytes → StoreError E ⊎ List Entry
  unfolding decoded
  load none = inr []
  load (some raw) = decoded (disk.decode raw)

  -- A call of write: its error ends it on the disk as it is then.
  unfoldable pub or_fail :
      Option E
      → (E → StoreError E)
      → Disk
      → Disk × Option (StoreError E)
      → Disk × Option (StoreError E)
  or_fail none wrap d rest = rest
  or_fail (some err) wrap d rest = (d, some (wrap err))

  -- The deferred os.Remove of the temporary file.
  unfoldable pub without_temp : Disk × Option (StoreError E) → Disk × Option (StoreError E)
  without_temp (d, err) = (record d { temp = none }, err)

  -- os.Rename of the temporary file to the file.
  unfoldable pub renamed : Disk → Disk
  renamed d = record { file = d.temp; temp = none }

  -- The calls on the temporary file, once it is there.
  unfoldable pub replaced : Option Bytes → Bytes → Disk × Option (StoreError E)
  unfolding or_fail renamed
  replaced file body =
      let partial : Disk = record { file = file; temp = some (take disk.written body) } in
      let full : Disk = record { file = file; temp = some body } in
      or_fail disk.write_temp writing partial (
        or_fail disk.chmod permissions full (
          or_fail disk.sync flushing full (
            or_fail disk.close closing full
              (or_fail disk.rename replacing full (renamed full, none)))))

  unfoldable pub encoded : Option Bytes → E ⊎ Bytes → Disk × Option (StoreError E)
  unfolding replaced or_fail without_temp
  encoded file (inl err) = (only_file file, some (encoding err))
  encoded file (inr body) =
      or_fail disk.make_dir making_dir (only_file file) (
        or_fail disk.create_temp creating_temp (only_file file) (without_temp (replaced file body)))

  -- write: the disk after it, and its error
  unfoldable pub write : Option Bytes → List Entry → Disk × Option (StoreError E)
  unfolding encoded styled
  write file es = encoded file (disk.encode (styled es))

  unfoldable pub put_at :
      Option Bytes → Entry → Bool → List Entry → Option ℕ → Disk × Option (StoreError E)
  unfolding write set_at
  put_at file e overwrite es none = write file (add_last e es)
  put_at file e overwrite es (some i) =
      if overwrite then write file (set_at i e es) else (only_file file, some exists)

  unfoldable pub save_in :
      Option Bytes → Entry → Bool → StoreError E ⊎ List Entry → Disk × Option (StoreError E)
  unfolding put_at index_of
  save_in file e overwrite (inl err) = (only_file file, some err)
  save_in file e overwrite (inr es) = put_at file e overwrite es (index_of e.name e.connection es)

  -- Save
  unfoldable pub save : Option Bytes → Entry → Bool → Disk × Option (StoreError E)
  unfolding save_in load trimmed equal
  save file e overwrite =
      if equal (trimmed e).name []
      then (only_file file, some needs_name)
      else save_in file (trimmed e) overwrite (load file)

  unfoldable pub drop_at : Option Bytes → List Entry → Option ℕ → Disk × Option (StoreError E)
  unfolding write delete_at
  drop_at file es none = (only_file file, some not_found)
  drop_at file es (some i) = write file (delete_at i es)

  unfoldable pub delete_in :
      Option Bytes → Bytes → Bytes → StoreError E ⊎ List Entry → Disk × Option (StoreError E)
  unfolding drop_at index_of
  delete_in file name connection (inl err) = (only_file file, some err)
  delete_in file name connection (inr es) = drop_at file es (index_of name connection es)

  -- Delete
  unfoldable pub delete : Option Bytes → Bytes → Bytes → Disk × Option (StoreError E)
  unfolding delete_in load trim_space
  delete file name connection = delete_in file (trim_space name) (trim_space connection) (load file)

-- ForConnection
unfoldable pub for_connection : List Entry → Bytes → List Scoped
unfolding equal
for_connection [] conn = []
for_connection (e ∷ es) conn =
    let rest = for_connection es conn in
    if equal e.connection []
    then record { entry = e; scope = global } ∷ rest
    else if not (equal conn []) && equal e.connection conn
    then record { entry = e; scope = of_connection } ∷ rest
    else rest

unfoldable pub names_with : Bytes → List Scoped → List Scoped
unfolding contains to_lower
names_with q [] = []
names_with q (s ∷ ss) =
    let rest = names_with q ss in if contains (to_lower s.entry.name) q then s ∷ rest else rest

-- FilterByName
unfoldable pub filter_by_name : List Scoped → Bytes → List Scoped
unfolding names_with to_lower trim_space equal
filter_by_name es query =
    let q = to_lower (trim_space query) in if equal q [] then es else names_with q es
