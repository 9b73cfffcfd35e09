-- ===== src/Cursor/Paging.antt =====
-- What a reader gets: the rows of the result in order, up to the cap.
use d9s.Base.{
  ℕ, zero, suc, ◌+◌, ◌≤◌, ◌<◌, ◌≡◌, ◌∙◌, refl, sym, ap, true, false, ◌⊎◌, List, [], ◌∷◌, ◌++◌,
  append_assoc, append-nil, Option, none, some, inl, inr, Bytes, arith, if◌then◌else◌, Bool-cases,
  length, length-append, length-append,
}
use d9s.Base.Int.{ℤ, pos, pos_part}
use d9s.Cursor.{
  Row, RowSource, Cursor, set_cap, close, page_size, next_page, is_done, Page, rows, failed,
  default_page_size, affected, drain, finish_drain, on_drained, Result, execute_via_cursor, opened,
  new_cursor,
}

-- What a source owes to its result `view`, the rows that it has yet to give: it gives them in order, at
-- most as many as are asked for, does not fail, and gives no row only when none is left.
pub record IsHonest {S E : Type 0} (source : RowSource S E) (view : S → List Row) : Type 0 where
  pub fetched : (s : S) (n : ℕ) → view s ≡ (source.fetch s n).1.rows ++ view (source.fetch s n).0
  pub bounded : (s : S) (n : ℕ) → length (source.fetch s n).1.rows ≤ n
  pub no_error : (s : S) (n : ℕ) → (source.fetch s n).1.err ≡ none
  pub ended :
      (s : S) (n : ℕ) → (source.fetch s n).1.exhausted ≡ true → view (source.fetch s n).0 ≡ []
  pub empty_page :
      (s : S) (n : ℕ) → 0 < n → (source.fetch s n).1.rows ≡ [] → view (source.fetch s n).0 ≡ []
  pub released : (s : S) → (source.release s).1 ≡ none

abbrev pub page_rows : {E : Type 0} → Page E → List Row
page_rows (rows rs) = rs
page_rows (failed e) = []

module _ {S E : Type 0} (source : RowSource S E) where
  -- The rows of the pages that a reader asks for, one behind the other.
  pub read_pages : Cursor S E → List ℤ → Cursor S E × List Row
  read_pages c [] = (c, [])
  read_pages c (n ∷ ns) =
      let step = next_page source c n in
      let rest = read_pages step.0 ns in (rest.0, page_rows step.1 ++ rest.1)

module _ {S E : Type 0} (source : RowSource S E) (view : S → List Row)
    (honest : IsHonest source view) where
  -- One page takes its rows off the result, and the cap holds.
  next_page-view :
      (c : Cursor S E) (n : ℤ)
      → (view c.src ≡ page_rows (next_page source c n).1 ++ view (next_page source c n).0.src)
        × ((next_page source c n).0.loaded ≡ c.loaded + length (page_rows (next_page source c n).1))
        × ((next_page source c n).0.row_cap ≡ c.row_cap)
        × (0 < c.row_cap → c.loaded ≤ c.row_cap → (next_page source c n).0.loaded ≤ c.row_cap)
  unfolding next_page
  next_page-view c n = ground (
    arith,
    honest.fetched c.src (page_size source c n),
    honest.bounded c.src (page_size source c n),
    honest.no_error c.src (page_size source c n),
  )

  read_pages-view :
      (ns : List ℤ) (c : Cursor S E)
      → (view c.src ≡ (read_pages source c ns).1 ++ view (read_pages source c ns).0.src)
        × ((read_pages source c ns).0.loaded ≡ c.loaded + length (read_pages source c ns).1)
        × ((read_pages source c ns).0.row_cap ≡ c.row_cap)
        × (0 < c.row_cap → c.loaded ≤ c.row_cap → (read_pages source c ns).0.loaded ≤ c.row_cap)
  unfolding read_pages
  read_pages-view [] c = (refl, omega arith, refl, λ p h. h)
  read_pages-view (n ∷ ns) c =
      let one = next_page-view c n in
      let c' = (next_page source c n).0 in
      let more = read_pages-view ns c' in
      let page = page_rows (next_page source c n).1 in
      let others = (read_pages source c' ns).1 in
      (
        one.0 ∙ ap (λ x. page ++ x) more.0 ∙ sym (append_assoc page others _),
        omega (arith, one.1, more.1, length-append page others),
        more.2 ∙ one.2,
        λ p h. omega (arith, more.3 (omega arith) (omega (arith, one.3 p h, one.2)), one.2),
      )

  -- Whatever page sizes a reader of a new cursor asks for, its pages hold the rows of the result in
  -- order, with none left out or given twice, and no more of them than the cap.
  pub read_pages-new_cursor :
      (columns : List Bytes) (limit : ℤ) (s : S) (ns : List ℤ)
      → (view s
          ≡ (read_pages source (new_cursor source columns limit s) ns).1
            ++ view (read_pages source (new_cursor source columns limit s) ns).0.src)
        × (0 < pos_part limit
            → length (read_pages source (new_cursor source columns limit s) ns).1 ≤ pos_part limit)
  unfolding new_cursor
  read_pages-new_cursor columns limit s ns =
      let r = read_pages-view ns (new_cursor source columns limit s) in
      (r.0, λ p. omega (arith, r.3 p (omega arith), r.1))

  -- A cursor that can be drained: no cap, no error, open, and at its end only with no row left.
  IsLive : Cursor S E → Type 0
  IsLive c =
      (c.row_cap ≡ 0) × (c.err ≡ none) × (c.closed ≡ false) × (c.exhausted ≡ true → view c.src ≡ [])

  abbrev after_page : Cursor S E → Cursor S E
  after_page c = record c {
    src = (source.fetch c.src default_page_size).0;
    loaded = c.loaded + length (source.fetch c.src default_page_size).1.rows;
    exhausted = if (source.fetch c.src default_page_size).1.exhausted then true else c.exhausted;
  }

  -- What NextPage does to such a cursor that is not done.
  live_step :
      (c : Cursor S E)
      → IsLive c
      → is_done source c ≡ false
      → next_page source c (pos default_page_size)
        ≡ (after_page c, rows (source.fetch c.src default_page_size).1.rows)
  unfolding next_page IsLive
  live_step c l d = ground (arith, honest.no_error c.src default_page_size)

  live_exhausted :
      (c : Cursor S E)
      → IsLive c
      → is_done source c ≡ false
      → (after_page c).exhausted ≡ true
      → view (source.fetch c.src default_page_size).0 ≡ []
  unfolding is_done
  live_exhausted c l d h = honest.ended c.src default_page_size (ground arith)

  done_live : (c : Cursor S E) → IsLive c → is_done source c ≡ true → view c.src ≡ []
  unfolding is_done IsLive
  done_live c l d = ground arith

  drain_done :
      (f : ℕ) (c : Cursor S E) (acc : List Row)
      → is_done source c ≡ true
      → drain source (suc f) c acc ≡ some (c, acc, none)
  unfolding drain
  drain_done f c acc d = ground arith

  -- One round of the loop on a page: it stops at an empty one.
  drain_page :
      (f : ℕ) (c c' : Cursor S E) (acc rs : List Row)
      → is_done source c ≡ false
      → next_page source c (pos default_page_size) ≡ (c', rows rs)
      → ((rs ≡ []) × (drain source (suc f) c acc ≡ some (c', acc, none)))
        ⊎ ((0 < length rs) × (drain source (suc f) c acc ≡ drain source f c' (acc ++ rs)))
  unfolding drain
  drain_page f c c' acc [] d s = inl (refl, ground arith)
  drain_page f c c' acc (r ∷ rs) d s = inr (omega arith, ground arith)

  -- What the loop ends with, at a cursor that is still open: every row, and no error.
  DrainedAs : Cursor S E × List Row × Option E → List Row → Type 0
  DrainedAs r all = (r.1 ≡ all) × (r.2 ≡ none) × (r.0.closed ≡ false)

  Drained : Option (Cursor S E × List Row × Option E) → List Row → Type 0
  Drained got all = (r : Cursor S E × List Row × Option E) × (got ≡ some r) × DrainedAs r all

  drain-view :
      (f : ℕ) (c : Cursor S E) (acc : List Row)
      → IsLive c
      → length (view c.src) < f
      → Drained (drain source f c acc) (acc ++ view c.src)
  unfolding Drained DrainedAs
  drain-view zero c acc l h = absurd (omega arith)
  drain-view (suc f) c acc l h = elim (Bool-cases (is_done source c)) [
    | inl d ↦
        rw (done_live c l d, append-nil)
          ((c, acc, none), drain_done f c acc d, (refl, refl, unfold IsLive in l.2))
    | inr d ↦
        let rs = (source.fetch c.src default_page_size).1.rows in
        let v = honest.fetched c.src default_page_size in
        let n = length-append rs (view (after_page c).src) in
        let l' : IsLive (after_page c) = unfold IsLive in (l.0, l.1, l.2, live_exhausted c l d) in
        elim (drain_page f c (after_page c) acc rs d (live_step c l d)) [
          | inl e ↦
              let last = honest.empty_page c.src default_page_size (omega arith) e.0 in
              rw (v, e.0, last, append-nil)
                ((after_page c, acc, none), e.1, (refl, refl, unfold IsLive in l.2))
          | inr e ↦
              let len = ap length v in
              let ih = drain-view f (after_page c) (acc ++ rs) l' (omega (arith, len, n, e.0)) in
              rw (e.1, v, ← append_assoc) ih
        ]
  ]

  finish_drain-Drained :
      (statement : Bytes) (r : Cursor S E × List Row × Option E) (all : List Row)
      → DrainedAs r all
      → ((finish_drain source statement r).1.rows ≡ all)
        × ((finish_drain source statement r).1.err ≡ none)
        × ((finish_drain source statement r).0.closed ≡ true)
        × ((finish_drain source statement r).1.affected
            ≡ source.affected (source.release r.0.src).0)
  unfolding finish_drain DrainedAs close affected
  finish_drain-Drained statement (c, rs, some e) all d = cc
  finish_drain-Drained statement (c, rs, none) all d = ground (arith, honest.released c.src)

  new_cursor-IsLive :
      (columns : List Bytes) (limit : ℤ) (s : S)
      → IsLive (set_cap source (new_cursor source columns limit s) (pos 0))
  unfolding IsLive new_cursor set_cap
  new_cursor-IsLive columns limit s = (refl, refl, refl, λ h. cc)

  -- executeViaCursor returns the whole result of a source that does not fail: every row, in order,
  -- whatever cap the cursor was made with, and no error. Its loop ends within as many rounds as there are
  -- rows, and one.
  pub execute_via_cursor-view :
      (f : ℕ) (statement : Bytes) (columns : List Bytes) (limit : ℤ) (s : S)
      → length (view s) < f
      → (got : Option (Cursor S E) × Result E) × (execute_via_cursor source f statement
            (opened (new_cursor source columns limit s))
          ≡ some got)
        × (got.1.rows ≡ view s)
        × (got.1.err ≡ none)
  unfolding execute_via_cursor on_drained Drained
  execute_via_cursor-view f statement columns limit s h =
      let c = set_cap source (new_cursor source columns limit s) (pos 0) in
      let (r, e, d) =
        drain-view f c [] (new_cursor-IsLive columns limit s) (unfold new_cursor set_cap in h) in
      let q = finish_drain-Drained statement r (view c.src) d in
      (
        (some (finish_drain source statement r).0, (finish_drain source statement r).1),
        ap (on_drained source statement) e,
        q.0 ∙ unfold new_cursor set_cap in refl,
        q.1,
      )
