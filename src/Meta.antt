-- ===== src/Meta.antt =====
-- internal/meta/meta.go: the backslash commands, and the suggestion for a verb that is none.
pub mod Distance
pub mod Argument
pub mod Parsed
use d9s.Base.{
  ℕ, zero, suc, ◌+◌, ◌≡◌, refl, Bool, true, false, not, ◌&&◌, ◌||◌, List, [], ◌∷◌, ◌++◌, Option,
  none, some, Bytes, codes, ltb, ◌==◌, within, if◌then◌else◌, take, drop, equal, has_prefix,
  trim_space, trim_prefix, min, ◌⊎◌, inl, inr,
}

pub record Command : Type 0 where
  pub verb : Bytes
  pub plus : Bool
  pub arg : Bytes

pub record CommandInfo : Type 0 where
  pub verb : Bytes
  pub args : Bytes
  pub desc : Bytes

abbrev info : Bytes → Bytes → Bytes → CommandInfo
info verb args desc = record { verb = verb; args = args; desc = desc }

abbrev pub commands : List CommandInfo
commands =
    info (codes "l") [] (codes "list databases")
    ∷ info (codes "d") (codes "[table]")
        (codes "describe a table, or list tables; \\d+ adds size, indexes, comments")
    ∷ info (codes "dt") [] (codes "list tables")
    ∷ info (codes "dn") [] (codes "list schemas")
    ∷ info (codes "du") [] (codes "list roles")
    ∷ info (codes "df") [] (codes "list functions")
    ∷ info (codes "?") [] (codes "list these commands")
    ∷ info (codes "q") [] (codes "quit")
    ∷ []

-- isVerbByte
unfoldable pub is_verb_byte : ℕ → Bool
is_verb_byte c = within b'a' b'z' c || within b'A' b'Z' c

-- isSpace
unfoldable pub is_space : ℕ → Bool
is_space c = c == b' ' || c == b'\t'

-- Is
unfoldable pub is_meta : Bytes → Bool
unfolding trim_space has_prefix
is_meta stmt = has_prefix (trim_space stmt) (codes "\\")

-- for i < len(s) && test(s[i]) { i++ }: the bytes in front of i, and the rest.
unfoldable pub span : (ℕ → Bool) → Bytes → Bytes × Bytes
span test [] = ([], [])
span test (c ∷ s) = let rest = span test s in if test c then (c ∷ rest.0, rest.1) else ([], c ∷ s)

abbrev pub push {ℓ} : {A : Type ℓ} → A → Option (List A × List A) → Option (List A × List A)
push c none = none
push c (some r) = some (c ∷ r.0, r.1)

-- The loop of readArg behind an opening quote: the name and the rest, or no closing quote.
unfoldable pub quoted_name : Bytes → Option (Bytes × Bytes)
quoted_name [] = none
quoted_name (c ∷ []) = if c == b'"' then some ([], []) else none
quoted_name (c ∷ d ∷ s) =
    let doubled = push b'"' (quoted_name s) in
    let longer = push c (quoted_name (d ∷ s)) in
    if c == b'"' then (if d == b'"' then doubled else some ([], d ∷ s)) else longer

-- readArg; none is an unterminated quote.
unfoldable pub read_arg : Bytes → Option (Bytes × Bytes)
unfolding quoted_name span is_space
read_arg [] = some ([], [])
read_arg (c ∷ s) =
    if not (c == b'"') then some (span (λ b. not (is_space b)) (c ∷ s)) else quoted_name s

-- The loop of known.
unfoldable pub known_in : List CommandInfo → Bytes → Bool
known_in [] verb = false
known_in (c ∷ cs) verb = equal c.verb verb || known_in cs verb

unfoldable pub known : Bytes → Bool
unfolding known_in
known verb = known_in commands verb

-- A row of editDistance from one cell on. `left` is the cell before, `above` the cell over that one, and
-- the list is the rest of the row above.
unfoldable pub cells : ℕ → ℕ → ℕ → List ℕ → Bytes → List ℕ
cells c left above [] b = []
cells c left above (q ∷ row) [] = []
cells c left above (q ∷ row) (d ∷ b) =
    let cell = min (q + 1) (min (left + 1) (above + (if c == d then 0 else 1))) in
    cell ∷ cells c cell q row b

-- prev[len(b)], of a row given by its first cell and the rest
unfoldable pub last_cell : ℕ → List ℕ → ℕ
last_cell p [] = p
last_cell p (q ∷ row) = last_cell q row

-- The loop over the first verb; `p` and `row` are prev, `i` is the number of the row to come.
unfoldable pub rows : ℕ → List ℕ → ℕ → Bytes → Bytes → ℕ
unfolding last_cell cells
rows p row i [] b = last_cell p row
rows p row i (c ∷ a) b = rows i (cells c i p row b) (suc i) a b

-- prev[j] = j
unfoldable pub first_row : ℕ → Bytes → List ℕ
first_row j [] = []
first_row j (d ∷ b) = j ∷ first_row (suc j) b

-- editDistance
unfoldable pub edit_distance : Bytes → Bytes → ℕ
unfolding rows first_row
edit_distance a b = rows 0 (first_row 1 b) 1 a b

-- The loop of unknownVerb: the closest verb nearer than `dist`, or `best`.
unfoldable pub closest : Bytes → Option Bytes → ℕ → List CommandInfo → Option Bytes
closest verb best dist [] = best
closest verb best dist (c ∷ cs) =
    let d = edit_distance verb c.verb in
    let nearer = closest verb (some c.verb) d cs in
    let same = closest verb best dist cs in if ltb d dist then nearer else same

-- unknownVerb: the command that it suggests
unfoldable pub suggestion : Bytes → Option Bytes
unfolding closest edit_distance
suggestion verb = closest verb none 3 commands

-- The errors of Parse
pub data ParseError : Type 0 where
  not_meta incomplete malformed unterminated : Bytes → ParseError
  unknown_verb : Bytes → Option Bytes → ParseError
  too_many : Bytes → Bytes → ParseError

-- The verb and what follows: letters, or a question mark.
unfoldable pub read_verb : Bytes → Bytes × Bytes
unfolding span is_verb_byte has_prefix
read_verb rest = elim (span is_verb_byte rest).0 [
  | [] ↦ if has_prefix rest (codes "?") then (take 1 rest, drop 1 rest) else ([], rest)
  | c ∷ v ↦ (c ∷ v, (span is_verb_byte rest).1)
]

unfoldable pub starts_blank : Bytes → Bool
unfolding is_space
starts_blank [] = true
starts_blank (c ∷ _) = is_space c

-- The end of Parse, from the argument on.
unfoldable pub with_arg : Bytes → Bytes → Bool → Option (Bytes × Bytes) → ParseError ⊎ Command
unfolding trim_space
with_arg s verb plus none = inl (unterminated s)
with_arg s verb plus (some (arg, tail)) =
    if not (equal (trim_space tail) [])
    then inl (too_many verb (trim_space tail))
    else inr (record { verb = verb; plus = plus; arg = arg })

-- The rest of Parse once it has the verb; `rest` is the text behind it.
unfoldable pub with_verb : Bytes → Bytes → Bytes → ParseError ⊎ Command
with_verb s verb rest =
    let behind = trim_prefix rest (codes "+") in
    if equal verb []
    then inl (incomplete s)
    else if not (known verb)
    then inl (unknown_verb verb (suggestion verb))
    else if not (starts_blank behind)
    then inl (malformed s)
    else with_arg s verb (has_prefix rest (codes "+")) (read_arg (trim_space behind))

-- Parse, on the statement and what is left of it without blanks.
unfoldable pub parse_trimmed : Bytes → Bytes → ParseError ⊎ Command
parse_trimmed stmt s =
    if not (has_prefix s (codes "\\"))
    then inl (not_meta stmt)
    else with_verb s (read_verb (drop 1 s)).0 (read_verb (drop 1 s)).1

-- Parse
unfoldable pub parse : Bytes → ParseError ⊎ Command
unfolding trim_space has_prefix parse_trimmed read_verb with_verb trim_prefix known suggestion
    starts_blank read_arg with_arg
parse stmt = parse_trimmed stmt (trim_space stmt)

-- Help
unfoldable pub help : List CommandInfo → List (List Bytes)
help [] = []
help (c ∷ cs) =
    ((codes "\\" ++ c.verb ++ (if equal c.args [] then [] else codes " " ++ c.args)) ∷ c.desc ∷ [])
    ∷ help cs
