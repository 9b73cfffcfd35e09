-- ===== src/Mcp/Table.antt =====
-- internal/mcp/format.go: the text table of a result, with its caps and notices. Runes are counted as the
-- bytes that start one, as they are in valid UTF-8.
use d9s.Base.{
  ℕ, zero, suc, ◌+◌, ◌-◌, Bool, true, false, ◌||◌, List, [], ◌∷◌, ◌++◌, Option, none, some, Bytes,
  codes, ltb, ◌==◌, if◌then◌else◌, length, take, max, fields,
}
use d9s.Base.Int.{ℤ, pos, negsuc, itoa}
use d9s.Mcp.Cut.{is_rune_start, cut_bytes, max_bytes, notice_reserve}

-- MaxRows and maxCellBytes
abbrev pub max_rows : ℕ
max_rows = 200

abbrev pub max_cell_bytes : ℕ
max_cell_bytes = 2048

-- utf8.RuneCountInString
unfoldable pub rune_count : Bytes → ℕ
rune_count [] = 0
rune_count (b ∷ s) = let rest = rune_count s in if is_rune_start b then suc rest else rest

-- The cells of a row, each within its cap, and how many were cut.
unfoldable pub cut_row : List Bytes → List Bytes × ℕ
unfolding cut_bytes
cut_row [] = ([], 0)
cut_row (value ∷ row) =
    let (cells, cut) = cut_row row in
    let (text, was_cut) = cut_bytes value max_cell_bytes in
    (text ∷ cells, if was_cut then suc cut else cut)

unfoldable pub cut_rows : List (List Bytes) → List (List Bytes) × ℕ
unfolding cut_row
cut_rows [] = ([], 0)
cut_rows (row ∷ rows) =
    let (cells, cut) = cut_row row in let (more, cuts) = cut_rows rows in (cells ∷ more, cut + cuts)

unfoldable pub name_widths : List Bytes → List ℕ
unfolding rune_count
name_widths [] = []
name_widths (name ∷ names) = rune_count name ∷ name_widths names

-- The widths with those of one row.
unfoldable pub widened : List ℕ → List Bytes → List ℕ
unfolding rune_count
widened [] row = []
widened (w ∷ ws) [] = w ∷ ws
widened (w ∷ ws) (value ∷ row) = max w (rune_count value) ∷ widened ws row

unfoldable pub all_widths : List ℕ → List (List Bytes) → List ℕ
unfolding widened
all_widths ws [] = ws
all_widths ws (row ∷ rows) = all_widths (widened ws row) rows

-- strings.Repeat of one byte
unfoldable pub repeated : ℕ → ℕ → Bytes
repeated zero b = []
repeated (suc n) b = b ∷ repeated n b

-- line, from a cell on
unfoldable pub line_from : List Bytes → List ℕ → Bytes
unfolding rune_count repeated
line_from [] ws = []
line_from (value ∷ []) ws = value
line_from (value ∷ next ∷ row) [] = value ++ codes " | " ++ line_from (next ∷ row) []
line_from (value ∷ next ∷ row) (w ∷ ws) =
    value ++ repeated (w - rune_count value) b' ' ++ codes " | " ++ line_from (next ∷ row) ws

-- line
unfoldable pub line : List Bytes → List ℕ → Bytes
unfolding line_from
line row ws = line_from row ws ++ codes "\n"

unfoldable pub rule_from : List ℕ → Bytes
unfolding repeated
rule_from [] = []
rule_from (w ∷ []) = repeated w b'-'
rule_from (w ∷ v ∷ ws) = repeated w b'-' ++ codes "-+-" ++ rule_from (v ∷ ws)

-- rule
unfoldable pub rule : List ℕ → Bytes
unfolding rule_from
rule ws = rule_from ws ++ codes "\n"

unfoldable pub table_head : List Bytes → List ℕ → Bytes
unfolding line rule
table_head [] ws = []
table_head (c ∷ columns) ws = line (c ∷ columns) ws ++ rule ws

-- The loop that writes the rows, up to the first one that is over the budget: the text, and how many.
unfoldable pub write_rows : ℕ → List ℕ → Bytes → ℕ → List (List Bytes) → Bytes × ℕ
unfolding line
write_rows budget ws text shown [] = (text, shown)
write_rows budget ws text shown (row ∷ rows) =
    let longer = text ++ line row ws in
    let more = write_rows budget ws longer (suc shown) rows in
    if ltb budget (length longer) then (text, shown) else more

-- The number of rows that there are, or none when it is not known.
unfoldable pub count_text : ℕ → Option ℕ → Bytes
unfolding itoa
count_text shown none = itoa (pos shown) ++ codes " rows shown and more remain"
count_text shown (some total) =
    itoa (pos shown) ++ codes " of " ++ itoa (pos total) ++ codes " rows shown"

-- The reasons, joined; none when no cap fired.
unfoldable pub reason_text : Bool → Bool → Bytes
reason_text true true = codes "the 200-row cap and the 102400-byte response cap"
reason_text true false = codes "the 200-row cap"
reason_text false true = codes "the 102400-byte response cap"
reason_text false false = []

unfoldable pub truncation_notice : Bytes → ℕ → Option ℕ → Bytes
unfolding count_text
truncation_notice [] shown total = []
truncation_notice (c ∷ reasons) shown total =
    codes "\nTruncated by "
    ++ (c ∷ reasons)
    ++ codes ": "
    ++ count_text shown total
    ++ codes ". Narrow the query with a WHERE clause or a LIMIT to see the rest.\n"

unfoldable pub cut_notice : ℕ → Bytes
unfolding itoa
cut_notice zero = []
cut_notice (suc n) =
    codes "Values over the 2048-byte cell cap were cut ("
    ++ itoa (pos (suc n))
    ++ codes " of them); a cut value ends with \""
    ++ (0xE2 ∷ 0x80 ∷ 0xA6 ∷ codes "(cut)\".\n")

-- renderGrid, on rows that there are: the rows within the row cap first.
unfoldable pub render_rows : List Bytes → List (List Bytes) → Option ℕ → Bool → Bytes
unfolding cut_rows all_widths name_widths table_head write_rows reason_text truncation_notice
    cut_notice cut_bytes
render_rows columns rows total more =
    let (cells, cut) = cut_rows (take max_rows rows) in
    let ws = all_widths (name_widths columns) cells in
    let (text, shown) =
      write_rows (max_bytes - notice_reserve) ws (table_head columns ws) 0 cells in
    let reasons = reason_text (more || ltb max_rows (length rows)) (ltb shown (length cells)) in
    (cut_bytes (text ++ truncation_notice reasons shown total ++ cut_notice cut) max_bytes).0

-- renderGrid
unfoldable pub render_grid : List Bytes → List (List Bytes) → Option ℕ → Bool → Bytes
unfolding render_rows
render_grid columns [] total more = codes "(no rows)"
render_grid columns (row ∷ rows) total more = render_rows columns (row ∷ rows) total more

-- grid and gridPaged
unfoldable pub grid : List Bytes → List (List Bytes) → Bytes
unfolding render_grid
grid columns rows = render_grid columns rows (some (length rows)) false

unfoldable pub grid_paged : List Bytes → List (List Bytes) → Bool → Bytes
unfolding render_grid
grid_paged columns rows more = render_grid columns rows none more

unfoldable pub spaced : List Bytes → Bytes
spaced [] = []
spaced (f ∷ []) = f
spaced (f ∷ g ∷ fs) = f ++ codes " " ++ spaced (g ∷ fs)

-- oneLine
unfoldable pub one_line : Bytes → Bytes
unfolding spaced fields cut_bytes
one_line s = (cut_bytes (spaced (fields s)) 200).0

-- heading
unfoldable pub heading : Bytes → Bytes
unfolding one_line
heading statement = codes "-- " ++ one_line statement ++ codes "\n"

-- formatSkipped and formatFailure
unfoldable pub format_skipped : Bytes → Bytes
unfolding heading
format_skipped statement =
    heading statement ++ codes "Skipped: an earlier statement in the same call failed.\n"

unfoldable pub format_failure : Bytes → Bytes → Bytes
unfolding heading
format_failure statement err = heading statement ++ codes "Failed: " ++ err ++ codes "\n"

-- countRows
unfoldable pub count_rows : ℕ → Bytes
unfolding itoa
count_rows n = if n == 1 then codes "1 row" else itoa (pos n) ++ codes " rows"

-- The rows that a statement affected, none being a negative count; `elapsed` is the printed duration.
unfoldable pub done_text : ℤ → Bytes → Bytes
unfolding count_rows
done_text (pos n) elapsed =
    codes "OK: " ++ count_rows n ++ codes " affected in " ++ elapsed ++ codes ".\n"
done_text (negsuc n) elapsed = codes "OK in " ++ elapsed ++ codes ".\n"

-- formatPage
unfoldable pub format_page : Bytes → List Bytes → List (List Bytes) → Bool → ℤ → Bytes → Bytes
unfolding heading grid_paged done_text
format_page statement [] rows more affected elapsed =
    heading statement ++ done_text affected elapsed
format_page statement (c ∷ columns) rows more affected elapsed =
    heading statement ++ grid_paged (c ∷ columns) rows more
