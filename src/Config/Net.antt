-- ===== src/Config/Net.antt =====
-- What internal/config uses of the packages net and strconv: net.SplitHostPort and strconv.Atoi.
use d9s.Base.{
  ℕ, zero, suc, ◌⊎◌, inl, inr, ◌+◌, ◌-◌, ◌*◌, [], ◌∷◌, Option, none, some, Bytes, leb, ◌==◌, within,
  if◌then◌else◌, take, drop, length, index_byte, contains_byte,
}
use d9s.Base.Int.{ℤ, pos, negsuc}

-- strings.LastIndexByte; none is -1
unfoldable pub last_index_byte : Bytes → ℕ → Option ℕ
last_index_byte [] b = none
last_index_byte (c ∷ s) b = elim (last_index_byte s b) [
  | some k ↦ some (suc k)
  | none ↦ if c == b then some 0 else none
]

-- The error of net.SplitHostPort
pub data AddrError : Type 0 where
  missing_port too_many_colons missing_bracket unexpected_open unexpected_close : AddrError

-- The end of SplitHostPort: no bracket from the positions `j` and `k` on.
unfoldable pub brackets_done : Bytes → Bytes → ℕ → ℕ → ℕ → AddrError ⊎ (Bytes × Bytes)
brackets_done addr host i j k =
    if contains_byte (drop j addr) b'['
    then inl unexpected_open
    else if contains_byte (drop k addr) b']'
    then inl unexpected_close
    else inr (host, drop (suc i) addr)

-- The host in brackets; `i` is the position of the last colon.
unfoldable pub bracketed : Bytes → ℕ → AddrError ⊎ (Bytes × Bytes)
unfolding brackets_done
bracketed addr i = elim (index_byte addr b']') [
  | none ↦ inl missing_bracket
  | some e ↦
      if suc e == length addr
      then inl missing_port
      else if suc e == i
      then brackets_done addr (drop 1 (take e addr)) i 1 (suc e)
      else elim (drop (suc e) addr) [
        | [] ↦ inl missing_port
        | c ∷ _ ↦ if c == b':' then inl too_many_colons else inl missing_port
      ]
]

unfoldable pub unbracketed : Bytes → ℕ → AddrError ⊎ (Bytes × Bytes)
unfolding brackets_done
unbracketed addr i =
    if contains_byte (take i addr) b':'
    then inl too_many_colons
    else brackets_done addr (take i addr) i 0 0

-- net.SplitHostPort
unfoldable pub split_host_port : Bytes → AddrError ⊎ (Bytes × Bytes)
unfolding bracketed unbracketed last_index_byte
split_host_port addr = elim (last_index_byte addr b':') [
  | none ↦ inl missing_port
  | some i ↦ elim addr [
    | [] ↦ inl missing_port
    | c ∷ s ↦ if c == b'[' then bracketed (c ∷ s) i else unbracketed (c ∷ s) i
  ]
]

-- The value of decimal digits, read from the left; none at any other byte.
unfoldable pub digits_from : ℕ → Bytes → Option ℕ
digits_from n [] = some n
digits_from n (c ∷ s) =
    let rest = digits_from (n * 10 + (c - b'0')) s in if within b'0' b'9' c then rest else none

unfoldable pub unsigned : Bytes → Option ℕ
unfolding digits_from
unsigned [] = none
unsigned (c ∷ s) = digits_from 0 (c ∷ s)

-- The numbers of an int, which has 64 bits
abbrev pub max_int : ℕ
max_int = 9223372036854775807

unfoldable pub as_pos : Option ℕ → Option ℤ
as_pos none = none
as_pos (some n) = if leb n max_int then some (pos n) else none

unfoldable pub as_neg : Option ℕ → Option ℤ
as_neg none = none
as_neg (some zero) = some (pos 0)
as_neg (some (suc n)) = if leb n max_int then some (negsuc n) else none

-- strconv.Atoi; none is its error
unfoldable pub atoi : Bytes → Option ℤ
unfolding unsigned as_pos as_neg
atoi [] = none
atoi (c ∷ s) =
    if c == b'-'
    then as_neg (unsigned s)
    else if c == b'+'
    then as_pos (unsigned s)
    else as_pos (unsigned (c ∷ s))
