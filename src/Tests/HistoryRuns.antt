-- ===== src/Tests/HistoryRuns.antt =====
-- internal/history on a concrete file, with a codec that knows one entry.
use d9s.Base.{◌≡◌, refl, true, [], ◌∷◌, ◌++◌, some, Bytes, codes, inr, arith, trim_space, equal}
use d9s.Base.Int.{pos}
use d9s.History.{Entry, Codec, dedup, load, append_entry}
use d9s.History.Loaded.{lines_text, IsWritten, load-append_entry}
use d9s.History.Recorded.{without}

abbrev entry_of : Bytes → Entry
entry_of statement = record {
  timestamp = pos 0;
  connection = codes "prod";
  database = [];
  statement = statement;
  ok = true;
  duration = pos 5;
}

-- The line is the statement in braces.
abbrev braces : Codec Bytes
braces = record {
  encode = λ e. inr (codes "{" ++ e.statement);
  decode = λ line. some (entry_of (codes "select 1"));
}

abbrev line : Bytes
line = codes "{select 1"

line-IsWritten : IsWritten braces (entry_of (codes "select 1")) line
unfolding trim_space
line-IsWritten = record {
  encoded = refl;
  decoded = refl;
  is_line = (omega arith, omega arith);
  trimmed = refl;
  not_blank = cc;
  has_statement = cc;
}

load-append_entry_example :
    (append_entry braces (some (lines_text (codes "{x" ∷ []))) (entry_of (codes "select 1"))
      ≡ inr (lines_text (codes "{x" ∷ line ∷ [])))
    × (load braces (some (lines_text (codes "{x" ∷ line ∷ [])))
        ≡ entry_of (codes "select 1")
          ∷ without (codes "select 1") (load braces (some (lines_text (codes "{x" ∷ [])))))
load-append_entry_example =
    load-append_entry braces (codes "{x" ∷ []) (entry_of (codes "select 1")) line
      ((omega arith, omega arith), tt) line-IsWritten

repeat_run :
    dedup (entry_of (codes "a") ∷ entry_of (codes "b") ∷ entry_of (codes "a") ∷ [])
    ≡ entry_of (codes "a") ∷ entry_of (codes "b") ∷ []
unfolding dedup equal
repeat_run = refl
