-- ===== src/Cursor.antt =====
-- internal/db/cursor.go: the cursor that pages one result. The engine's half, a rowSource, is a
-- record of its three functions over a state of its own. A cursor that runs with a context keeps in
-- `watched` that its watcher is still set (stopWatch); newRowCursor sets none.
pub mod Paging
pub mod Closing
use d9s.Base.{
  ℕ, zero, suc, ◌+◌, ◌-◌, ◌≡◌, refl, Bool, true, false, not, ◌&&◌, ◌||◌, List, [], ◌∷◌, ◌++◌,
  Option, none, some, Bytes, ltb, leb, if◌then◌else◌, length,
}
use d9s.Base.Int.{ℤ, pos, negsuc, pos_part}

abbrev pub Row : Type 0
Row = List Bytes

-- DefaultPageSize
abbrev pub default_page_size : ℕ
default_page_size = 200

-- What fetch returns: the rows, whether the result has no more to give, and the error.
pub record Fetched (E : Type 0) : Type 0 where
  pub rows : List Row
  pub exhausted : Bool
  pub err : Option E

-- rowSource, over the source's own state `S` and its errors `E`
pub record RowSource (S E : Type 0) : Type 0 where
  pub fetch : S → ℕ → S × Fetched E
  pub release : S → S × Option E
  pub affected : S → ℤ

-- cursor; `row_cap` is 0 where the source has zero or less.
pub record Cursor (S E : Type 0) : Type 0 where
  pub columns : List Bytes
  pub src : S
  pub row_cap : ℕ
  pub loaded : ℕ
  pub exhausted : Bool
  pub closed : Bool
  pub err : Option E
  pub watched : Bool

-- One page: the rows, or the error.
pub data Page (E : Type 0) : Type 0 where
  rows : List Row → Page E
  failed : E → Page E

module _ {S E : Type 0} (source : RowSource S E) where
  -- newCursor, on a context that can be cancelled
  pub new_cursor : List Bytes → ℤ → S → Cursor S E
  new_cursor columns cap src = record {
    columns = columns;
    src = src;
    row_cap = pos_part cap;
    loaded = 0;
    exhausted = false;
    closed = false;
    err = none;
    watched = true;
  }

  pub capped : Cursor S E → Bool
  capped c = ltb 0 c.row_cap && leb c.row_cap c.loaded

  -- Done
  pub is_done : Cursor S E → Bool
  unfolding capped
  is_done c = c.exhausted || c.closed || capped c

  -- Truncated
  pub truncated : Cursor S E → Bool
  unfolding capped
  truncated c = not c.exhausted && capped c

  -- SetCap
  pub set_cap : Cursor S E → ℤ → Cursor S E
  set_cap c cap = record c { row_cap = pos_part cap }

  -- closeLocked, and Close
  pub close : Cursor S E → Cursor S E × Option E
  close c =
      let (src, e) = source.release c.src in
      if c.closed then (c, none) else (record c { closed = true; watched = false; src = src }, e)

  -- cancel, with the error of the context
  pub cancel : Cursor S E → E → Cursor S E
  unfolding close
  cancel c why = (close (elim c.err [ none ↦ record c { err = some why } | some _ ↦ c ])).0

  -- The number of rows that NextPage asks the source for.
  pub page_size : Cursor S E → ℤ → ℕ
  page_size c n =
      let m = if leb (pos_part n) 0 then default_page_size else pos_part n in
      let room = c.row_cap - c.loaded in
      if ltb 0 c.row_cap then (if ltb room m then room else m) else m

  -- NextPage behind its two early returns
  pub fetch_page : Cursor S E → ℕ → Cursor S E × Page E
  unfolding close
  fetch_page c n =
      let (src, f) = source.fetch c.src n in
      let c' = record c {
        src = src;
        loaded = c.loaded + length f.rows;
        exhausted = if f.exhausted then true else c.exhausted;
      } in
      elim f.err [
        | none ↦ (c', rows f.rows)
        | some e ↦ ((close (record c' { err = some e })).0, failed e)
      ]

  -- NextPage
  pub next_page : Cursor S E → ℤ → Cursor S E × Page E
  unfolding fetch_page is_done page_size
  next_page c n = elim c.err [
    | some e ↦ (c, failed e)
    | none ↦ if is_done c then (c, rows []) else fetch_page c (page_size c n)
  ]

  -- Affected
  pub affected : Cursor S E → ℤ
  affected c = source.affected c.src

-- sliceSource: the rows left, and the count of affected rows
pub record SliceState : Type 0 where
  pub left : List Row
  pub affected_rows : ℤ

abbrev pub slice_source : (E : Type 0) → RowSource SliceState E
slice_source E = record {
  fetch = λ s n. (record s { left = [] }, record { rows = s.left; exhausted = true; err = none });
  release = λ s. (record s { left = [] }, none);
  affected = λ s. s.affected_rows;
}

-- newRowCursor: no cap and no watcher
pub new_row_cursor : (E : Type 0) → List Bytes → List Row → ℤ → Cursor SliceState E
new_row_cursor E columns rs n = record {
  columns = columns;
  src = record { left = rs; affected_rows = n };
  row_cap = 0;
  loaded = 0;
  exhausted = false;
  closed = false;
  err = none;
  watched = false;
}

-- The fields of Result that executeViaCursor fills, its duration left aside.
pub record Result (E : Type 0) : Type 0 where
  pub statement : Bytes
  pub columns : List Bytes
  pub rows : List Row
  pub affected : ℤ
  pub err : Option E

-- What ExecuteStream returns: a cursor or an error
pub data Opened (S E : Type 0) : Type 0 where
  opened : Cursor S E → Opened S E
  refused : E → Opened S E

module _ {S E : Type 0} (source : RowSource S E) where
  -- The loop of executeViaCursor: the cursor behind it, the rows so far, and the error; `none` is a loop
  -- that has not ended within the fuel.
  pub drain : ℕ → Cursor S E → List Row → Option (Cursor S E × List Row × Option E)
  drain zero c acc = none
  drain (suc f) c acc =
      let step = next_page source c (pos default_page_size) in
      elim (is_done source c) [
        | true ↦ some (c, acc, none)
        | false ↦ elim step.1 [
          | failed e ↦ some (step.0, acc, some e)
          | rows [] ↦ some (step.0, acc, none)
          | rows (◌∷◌ r rs) ↦ drain f step.0 (acc ++ r ∷ rs)
        ]
      ]

  -- The end of executeViaCursor: the deferred close, or the close in front of the count.
  pub finish_drain : Bytes → Cursor S E × List Row × Option E → Cursor S E × Result E
  finish_drain statement (c, rs, some e) = (
    (close source c).0,
    record {
      statement = statement;
      columns = c.columns;
      rows = rs;
      affected = negsuc 0;
      err = some e;
    },
  )
  finish_drain statement (c, rs, none) =
      let done = (close source c).0 in
      (
        done,
        record {
          statement = statement;
          columns = c.columns;
          rows = rs;
          affected = elim (close source c).1 [ some _ ↦ negsuc 0 | none ↦ affected source done ];
          err = (close source c).1;
        },
      )

  pub on_drained :
      Bytes → Option (Cursor S E × List Row × Option E) → Option (Option (Cursor S E) × Result E)
  unfolding finish_drain
  on_drained statement none = none
  on_drained statement (some r) =
      some (some (finish_drain statement r).0, (finish_drain statement r).1)

  -- executeViaCursor: the cursor, if there is one, and the result; `none` is a loop that has not ended
  -- within the fuel.
  pub execute_via_cursor : ℕ → Bytes → Opened S E → Option (Option (Cursor S E) × Result E)
  unfolding on_drained drain
  execute_via_cursor fuel statement (refused e) = some (
    none,
    record { statement = statement; columns = []; rows = []; affected = negsuc 0; err = some e },
  )
  execute_via_cursor fuel statement (opened c) =
      on_drained statement (drain fuel (set_cap source c (pos 0)) [])
