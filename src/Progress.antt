-- ===== src/Progress.antt =====
-- internal/db/progress.go: the totals that a running statement reports. Counts are uint64 and values int64,
-- as the code adds them: sums wrap around. A Go map is its list of pairs, each key once, here in the order
-- in which the keys were first seen, which the code keeps next to it.
use d9s.Base.{ℕ, ◌+◌, ◌%◌, Bool, List, [], ◌∷◌, ◌++◌, Bytes, codes, ltb, if◌then◌else◌, equal}

-- 2 ^ 64. A number of 64 bits stands for its sign and value in two's complement.
abbrev pub word_size : ℕ
word_size = 18446744073709551616

abbrev pub plus : ℕ → ℕ → ℕ
plus a b = (a + b) % word_size

-- Progress
pub record Totals : Type 0 where
  pub rows : ℕ
  pub bytes : ℕ
  pub total_rows : ℕ
  pub memory : ℕ

-- What the sink hears.
pub data Heard : Type 0 where
  progress : Totals → Heard
  profile_events : List (Bytes × ℕ) → Heard

-- progressTracker, with what its sink has heard, the last call at the end
pub record Tracker : Type 0 where
  pub prog : Totals
  pub total : List (Bytes × ℕ)
  pub heard : List Heard

-- newProgressTracker
abbrev pub new_tracker : Tracker
new_tracker = record {
  prog = record { rows = 0; bytes = 0; total_rows = 0; memory = 0 };
  total = [];
  heard = [];
}

-- addProgress
unfoldable pub add_progress : ℕ → ℕ → ℕ → Tracker → Tracker
add_progress rows bytes total_rows t =
    let p = record t.prog {
      rows = plus t.prog.rows rows;
      bytes = plus t.prog.bytes bytes;
      total_rows = if ltb t.prog.total_rows total_rows then total_rows else t.prog.total_rows;
    } in
    record t { prog = p; heard = t.heard ++ progress p ∷ [] }

-- The value of a counter, 0 when it was not seen.
unfoldable pub counter : List (Bytes × ℕ) → Bytes → ℕ
unfolding equal
counter [] name = 0
counter (p ∷ m) name = if equal p.0 name then p.1 else counter m name

-- A counter with a new value, behind the others when it was not seen.
unfoldable pub set_counter : List (Bytes × ℕ) → Bytes → ℕ → List (Bytes × ℕ)
unfolding equal
set_counter [] name value = (name, value) ∷ []
set_counter (p ∷ m) name value =
    let rest = set_counter m name value in if equal p.0 name then (name, value) ∷ m else p ∷ rest

-- addEvent
unfoldable pub add_event : Bytes → Bool → ℕ → Tracker → Tracker
unfolding counter set_counter equal
add_event name gauge value t =
    let now = if gauge then value else plus (counter t.total name) value in
    record t {
      total = set_counter t.total name now;
      prog = if equal name (codes "MemoryTracking") then record t.prog { memory = now } else t.prog;
    }

-- flush
unfoldable pub flush : Tracker → Tracker
flush t = record t { heard = t.heard ++ profile_events t.total ∷ progress t.prog ∷ [] }
