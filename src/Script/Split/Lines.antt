-- ===== src/Script/Split/Lines.antt =====
-- splitRedis: one command to a line.
use d9s.Base.{
  ◌≡◌, ◌≢◌, ◌∙◌, refl, ap, sym, false, ◌||◌, inl, inr, List, [], ◌∷◌, ◌++◌, append_assoc,
  append-nil, Bytes, codes, arith, Bool-cases, All, Lacks, trim_space, IsTrimmed,
  trim_space-IsTrimmed, equal, equal_iff, has_prefix,
}
use d9s.Script.Split.{split_lines, redis_lines, split_redis}

-- A line that is a command as it stands: trimmed, not blank, no comment.
abbrev pub IsCommand : Bytes → Type 0
IsCommand t = IsTrimmed t × (t ≢ []) × (has_prefix t (codes "#") ≡ false)

redis_lines-IsCommand : (ls : List Bytes) → All IsCommand (redis_lines ls)
unfolding redis_lines
redis_lines-IsCommand [] = tt
redis_lines-IsCommand (l ∷ ls) =
    elim (Bool-cases (equal (trim_space l) [] || has_prefix (trim_space l) (codes "#"))) [
      | inl e ↦ rw e (redis_lines-IsCommand ls)
      | inr e ↦ rw e (
        (trim_space-IsTrimmed l, ground (arith, equal_iff (trim_space l) []), ground arith),
        redis_lines-IsCommand ls,
      )
    ]

-- Lines joined by line ends.
abbrev pub join_lines : List Bytes → Bytes
join_lines [] = []
join_lines (l ∷ []) = l
join_lines (l ∷ m ∷ ls) = l ++ (b'\n' ∷ join_lines (m ∷ ls))

pub split_lines-append :
    (l cur rest : Bytes) → Lacks b'\n' l → split_lines (l ++ rest) cur ≡ split_lines rest (cur ++ l)
unfolding split_lines
split_lines-append [] cur rest h = rw append-nil
split_lines-append (c ∷ l) cur rest h =
    ground (arith, split_lines-append l (cur ++ c ∷ []) rest h.1, append_assoc cur (c ∷ []) l)

pub split_lines_end :
    (cur s : Bytes)
    → (split_lines [] cur ≡ cur ∷ []) × (split_lines (b'\n' ∷ s) cur ≡ cur ∷ split_lines s [])
unfolding split_lines
split_lines_end cur s = (refl, refl)

split_lines-join :
    (l : Bytes) (ls : List Bytes)
    → All (Lacks b'\n') (l ∷ ls)
    → split_lines (join_lines (l ∷ ls)) [] ≡ l ∷ ls
split_lines-join l [] h =
    ap (λ x. split_lines x []) (sym (append-nil l))
    ∙ split_lines-append l [] [] h.0
    ∙ (split_lines_end l []).0
split_lines-join l (m ∷ ls) h =
    split_lines-append l [] (b'\n' ∷ join_lines (m ∷ ls)) h.0
    ∙ (split_lines_end l (join_lines (m ∷ ls))).1
    ∙ ap (λ x. l ∷ x) (split_lines-join m ls h.1)

redis_lines-commands : (ls : List Bytes) → All IsCommand ls → redis_lines ls ≡ ls
unfolding redis_lines
redis_lines-commands [] h = refl
redis_lines-commands (l ∷ ls) h =
    rw h.0.0 (ground (arith, equal_iff l [], redis_lines-commands ls h.1))

-- Every statement of a Redis script is a command: not blank, no comment, and without blanks at its
-- ends. And a script made of commands, one to a line, is split into exactly these.
pub split_redis-commands :
    (script : Bytes) (c : Bytes) (cs : List Bytes)
    → All IsCommand (c ∷ cs)
    → All (Lacks b'\n') (c ∷ cs)
    → All IsCommand (split_redis script) × (split_redis (join_lines (c ∷ cs)) ≡ c ∷ cs)
unfolding split_redis
split_redis-commands script c cs h k = (
  redis_lines-IsCommand (split_lines script []),
  ap redis_lines (split_lines-join c cs k) ∙ redis_lines-commands (c ∷ cs) h,
)
