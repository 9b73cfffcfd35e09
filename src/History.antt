-- ===== src/History.antt =====
-- internal/history/history.go: the statements that were run, one line of JSON each. The codec is
-- encoding/json on the entry; the file is its bytes, or none when it is missing. Opening, reading and
-- writing it are taken to succeed.
pub mod Recorded
pub mod Loaded
use mathlib.Core.List.{reverse}
use d9s.Base.{
  ℕ, Bool, true, false, ◌||◌, List, [], ◌∷◌, ◌++◌, Option, none, some, Bytes, leb, length, equal,
  if◌then◌else◌, trim_space, to_lower, contains, ◌⊎◌, inl, inr,
}
use d9s.Base.Int.{ℤ}
use d9s.Script.Split.{split_lines}

pub record Entry : Type 0 where
  pub timestamp : ℤ
  pub connection : Bytes
  pub database : Bytes
  pub statement : Bytes
  pub ok : Bool
  pub duration : ℤ

-- maxLineBytes
abbrev pub max_line_bytes : ℕ
max_line_bytes = 4194304

-- json.Marshal and json.Unmarshal of an entry
pub record Codec (E : Type 0) : Type 0 where
  pub encode : Entry → E ⊎ Bytes
  pub decode : Bytes → Option Entry

-- The map of dedup, as the list of its keys.
unfoldable pub is_seen : List Bytes → Bytes → Bool
is_seen [] statement = false
is_seen (x ∷ seen) statement = equal x statement || is_seen seen statement

-- The loop of dedup, over the entries from the last one on.
unfoldable pub newest : List Bytes → List Entry → List Entry
unfolding is_seen
newest seen [] = []
newest seen (e ∷ es) =
    let known = newest seen es in
    let kept = e ∷ newest (e.statement ∷ seen) es in
    if is_seen seen e.statement then known else kept

unfoldable pub dedup : List Entry → List Entry
unfolding newest
dedup es = newest [] (reverse es)

-- The loop of Filter.
unfoldable pub matching : Bytes → List Entry → List Entry
unfolding contains to_lower
matching q [] = []
matching q (e ∷ es) =
    let rest = matching q es in if contains (to_lower e.statement) q then e ∷ rest else rest

-- Filter
unfoldable pub filter_entries : List Entry → Bytes → List Entry
unfolding matching to_lower
filter_entries es query = if equal query [] then es else matching (to_lower query) es

-- An entry without a statement is none.
unfoldable pub with_statement : Option Entry → Option Entry
with_statement none = none
with_statement (some e) = if equal e.statement [] then none else some e

abbrev pub prepend {ℓ} : {A : Type ℓ} → Option A → List A → List A
prepend none xs = xs
prepend (some x) xs = x ∷ xs

module _ {E : Type 0} (codec : Codec E) where
  -- The entry of a line without blanks at its ends.
  unfoldable pub text_entry : Bytes → Option Entry
  unfolding with_statement
  text_entry line = if equal line [] then none else with_statement (codec.decode line)

  -- A line of the file.
  unfoldable pub read_line : Bytes → Option Entry
  read_line line = text_entry (trim_space line)

  -- The loop of Load over the lines. The scanner stops at a line that is too long, and what was read
  -- is kept.
  unfoldable pub read_lines : List Bytes → List Entry
  read_lines [] = []
  read_lines (line ∷ lines) =
      let rest = prepend (read_line line) (read_lines lines) in
      if leb max_line_bytes (length line) then [] else rest

  -- Load. The scanner gives no line behind the last line end; an empty one here is skipped.
  unfoldable pub load : Option Bytes → List Entry
  unfolding dedup read_lines read_line text_entry trim_space split_lines
  load none = []
  load (some content) = dedup (read_lines (split_lines content []))

  abbrev pub content_of : Option Bytes → Bytes
  content_of none = []
  content_of (some content) = content

  unfoldable pub write_line : Option Bytes → E ⊎ Bytes → E ⊎ Bytes
  write_line file (inl err) = inl err
  write_line file (inr line) = inr (content_of file ++ (line ++ b'\n' ∷ []))

  -- Append: the file with the line behind, or the error of the codec.
  unfoldable pub append_entry : Option Bytes → Entry → E ⊎ Bytes
  unfolding write_line
  append_entry file e = write_line file (codec.encode e)
