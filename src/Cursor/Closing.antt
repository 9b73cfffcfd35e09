-- ===== src/Cursor/Closing.antt =====
-- A cursor releases its source once, when it is closed, and leaves it alone from then on.
use d9s.Base.{
  ℕ, ◌+◌, ◌≡◌, ◌⊎◌, ◌∙◌, refl, true, List, [], ◌∷◌, none, some, inl, inr, Bytes, arith,
  if◌then◌else◌, Option-cases,
}
use d9s.Base.Int.{ℤ}
use d9s.Cursor.{RowSource, Cursor, new_cursor, set_cap, close, cancel, next_page, rows, failed}

-- The calls that change a cursor: the reader's, and those of another goroutine or of the watcher.
pub data Op (E : Type 0) : Type 0 where
  page : ℤ → Op E
  cap : ℤ → Op E
  closing : Op E
  cancelling : E → Op E

module _ {S E : Type 0} (source : RowSource S E) where
  abbrev pub step : Op E → Cursor S E → Cursor S E
  step (page n) c = (next_page source c n).0
  step (cap n) c = set_cap source c n
  step closing c = (close source c).0
  step (cancelling e) c = cancel source c e

  abbrev pub run : List (Op E) → Cursor S E → Cursor S E
  run [] c = c
  run (o ∷ os) c = run os (step o c)

-- A source that counts the calls of its release.
abbrev pub counted : {S E : Type 0} → RowSource S E → RowSource (S × ℕ) E
counted source = record {
  fetch = λ s n. (((source.fetch s.0 n).0, s.1), (source.fetch s.0 n).1);
  release = λ s. (((source.release s.0).0, s.1 + 1), (source.release s.0).1);
  affected = λ s. source.affected s.0;
}

module _ {S E : Type 0} (source : RowSource S E) where
  -- The releases are counted by whether the cursor is closed.
  abbrev IsCounted : Cursor (S × ℕ) E → Type 0
  IsCounted c = c.src.1 ≡ (if c.closed then 1 else 0)

  close-IsCounted : (c : Cursor (S × ℕ) E) → IsCounted c → IsCounted (close (counted source) c).0
  unfolding close
  close-IsCounted c h = ground arith

  next_page-IsCounted :
      (c : Cursor (S × ℕ) E) (n : ℤ) → IsCounted c → IsCounted (next_page (counted source) c n).0
  unfolding next_page
  next_page-IsCounted c n h = ground arith

  step-IsCounted :
      (o : Op E) (c : Cursor (S × ℕ) E) → IsCounted c → IsCounted (step (counted source) o c)
  unfolding set_cap cancel
  step-IsCounted (page n) c h = next_page-IsCounted c n h
  step-IsCounted (cap n) c h = h
  step-IsCounted closing c h = close-IsCounted c h
  step-IsCounted (cancelling e) c h = ground arith

  run-IsCounted :
      (os : List (Op E)) (c : Cursor (S × ℕ) E)
      → IsCounted c
      → IsCounted (run (counted source) os c)
  run-IsCounted [] c h = h
  run-IsCounted (o ∷ os) c h = run-IsCounted os (step (counted source) o c) (step-IsCounted o c h)

  -- Whatever is called on a new cursor, in whatever order, its source has been released exactly once if
  -- the cursor is closed, and not at all if it is open.
  pub release_once :
      (columns : List Bytes) (limit : ℤ) (s : S) (os : List (Op E))
      → (run (counted source) os (new_cursor (counted source) columns limit (s, 0))).src.1 ≡ (
          if (run (counted source) os (new_cursor (counted source) columns limit (s, 0))).closed
          then 1
          else 0)
  unfolding new_cursor
  release_once columns limit s os =
      run-IsCounted os (new_cursor (counted source) columns limit (s, 0)) refl

  next_page-closed :
      (c : Cursor S E) (n : ℤ)
      → c.closed ≡ true
      → ((next_page source c n).0 ≡ c)
        × (((next_page source c n).1 ≡ rows [])
            ⊎ ((e : E) × (c.err ≡ some e) × ((next_page source c n).1 ≡ failed e)))
  unfolding next_page
  next_page-closed c n h = elim (Option-cases c.err) [
    | inl e ↦ (ground arith, inl (ground arith))
    | inr (x, e) ↦ (ground arith, inr (x, e, ground arith))
  ]

  step-closed :
      (o : Op E) (c : Cursor S E)
      → c.closed ≡ true
      → ((step source o c).closed ≡ true) × ((step source o c).src ≡ c.src)
  unfolding set_cap cancel close
  step-closed (page n) c h = ground (arith, (next_page-closed c n h).0)
  step-closed (cap n) c h = (h, refl)
  step-closed closing c h = ground arith
  step-closed (cancelling e) c h = ground arith

  -- Once a cursor is closed, no call opens it again or touches the engine's result.
  pub run-closed :
      (os : List (Op E)) (c : Cursor S E)
      → c.closed ≡ true
      → ((run source os c).closed ≡ true) × ((run source os c).src ≡ c.src)
  run-closed [] c h = (h, refl)
  run-closed (o ∷ os) c h =
      let s = step-closed o c h in let r = run-closed os (step source o c) s.0 in (r.0, r.1 ∙ s.1)

  -- A cancelled read is not mistaken for a finished one: after `cancel` every call of NextPage returns an
  -- error, and it is that of the cancellation unless the cursor had failed before.
  pub cancel-next_page :
      (c : Cursor S E) (why : E) (n : ℤ)
      → (next_page source (cancel source c why) n).1
        ≡ failed (elim c.err [ none ↦ why | some e ↦ e ])
  unfolding next_page cancel
  cancel-next_page c why n = ground arith
