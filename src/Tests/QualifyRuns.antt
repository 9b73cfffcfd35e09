-- ===== src/Tests/QualifyRuns.antt =====
-- internal/db/qualify.go on a concrete table.
use d9s.Base.{◌≡◌, codes, if◌then◌else◌, arith}
use d9s.Qualify.{is_default, qualify, split_qualified, split_qualified-qualify}

split_qualified-qualify_example :
    split_qualified (qualify (codes "audit") (codes "log")) (codes "public")
    ≡ (if is_default (codes "audit") then codes "public" else codes "audit", codes "log")
split_qualified-qualify_example =
    split_qualified-qualify (codes "audit") (codes "log") (codes "public") (omega arith)
      (omega arith)
