-- ===== src/Tests/CursorRuns.antt =====
-- internal/db/cursor.go on a source of three rows.
use d9s.Base.{
  ℕ, zero, suc, ◌≡◌, ◌<◌, ◌≤◌, refl, sym, ◌++◌, List, [], ◌∷◌, Option, none, some, true, Bytes,
  codes, arith, if◌then◌else◌, length, take, drop, leb, take-append-drop, length-take,
}
use d9s.Base.Int.{pos, negsuc}
use d9s.Cursor.{Row, RowSource, Cursor, Result, new_cursor, execute_via_cursor, opened}
use d9s.Cursor.Closing.{Op, page, closing, cancelling, run, counted, release_once}
use d9s.Cursor.Paging.{IsHonest, read_pages, read_pages-new_cursor, execute_via_cursor-view}

-- A source that holds the rows left, and gives as many as are asked for.
abbrev paged : RowSource (List Row) Bytes
paged = record {
  fetch = λ s n. (drop n s, record { rows = take n s; exhausted = leb (length s) n; err = none });
  release = λ s. (s, none);
  affected = λ s. negsuc 0;
}

take-le : (s : List Row) (n : ℕ) → length (take n s) ≤ n
take-le s n = omega (arith, length-take n s)

drop_all : (s : List Row) (n : ℕ) → leb (length s) n ≡ true → drop n s ≡ []
drop_all [] zero h = refl
drop_all [] (suc n) h = refl
drop_all (r ∷ s) zero h = ground arith
drop_all (r ∷ s) (suc n) h = drop_all s n (ground arith)

take_none : (s : List Row) (n : ℕ) → 0 < n → take n s ≡ [] → drop n s ≡ []
take_none s zero h e = elim h [ ]
take_none [] (suc n) h e = refl
take_none (r ∷ s) (suc n) h e = cc

paged-IsHonest : IsHonest paged (λ s. s)
paged-IsHonest = record {
  fetched = λ s n. sym (take-append-drop n s);
  bounded = take-le;
  no_error = λ s n. refl;
  ended = drop_all;
  empty_page = take_none;
  released = λ s. refl;
}

abbrev three : List Row
three = (codes "a" ∷ []) ∷ (codes "b" ∷ []) ∷ (codes "c" ∷ []) ∷ []

abbrev ids : List Bytes
ids = codes "id" ∷ []

abbrev two_of_three : Cursor (List Row) Bytes
two_of_three = new_cursor paged ids (pos 2) three

read_pages-new_cursor_example :
    (three
      ≡ (read_pages paged two_of_three (pos 1 ∷ pos 5 ∷ [])).1
        ++ (read_pages paged two_of_three (pos 1 ∷ pos 5 ∷ [])).0.src)
    × (0 < 2 → length (read_pages paged two_of_three (pos 1 ∷ pos 5 ∷ [])).1 ≤ 2)
read_pages-new_cursor_example =
    read_pages-new_cursor paged (λ s. s) paged-IsHonest ids (pos 2) three (pos 1 ∷ pos 5 ∷ [])

execute_via_cursor-view_example :
    (got : Option (Cursor (List Row) Bytes) × Result Bytes) × (execute_via_cursor paged 4
        (codes "q")
        (opened (new_cursor paged ids (pos 2) three))
      ≡ some got)
    × (got.1.rows ≡ three)
    × (got.1.err ≡ none)
execute_via_cursor-view_example =
    execute_via_cursor-view paged (λ s. s) paged-IsHonest 4 (codes "q") ids (pos 2) three
      (omega arith)

abbrev calls : List (Op Bytes)
calls = page (pos 1) ∷ closing ∷ cancelling (codes "gone") ∷ closing ∷ []

abbrev watched_cursor : Cursor (List Row × ℕ) Bytes
watched_cursor = run (counted paged) calls (new_cursor (counted paged) ids (pos 2) (three, 0))

release_once_example : watched_cursor.src.1 ≡ (if watched_cursor.closed then 1 else 0)
release_once_example = release_once paged ids (pos 2) three calls
