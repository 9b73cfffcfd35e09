-- ===== src/Tests/SnippetsRuns.antt =====
-- internal/snippets at concrete inputs, with a codec that writes each text behind its length.
use d9s.Base.{
  ℕ, zero, suc, ◌≡◌, refl, [], ◌∷◌, ◌++◌, List, none, Bytes, codes, ◌⊎◌, inl, inr, length, take,
  drop, take-append, drop-append,
}
use d9s.Snippets.{Entry, Storage}
use mathlib.Core.List.{map}
use d9s.Snippets.Printable.{entry_of}

abbrev text_code : Bytes → Bytes
text_code s = length s ∷ s

abbrev body : List Entry → Bytes
body [] = []
body (e ∷ es) = text_code e.name ++ (text_code e.connection ++ (text_code e.query ++ body es))

abbrev text_of : Bytes → Bytes × Bytes
text_of [] = ([], [])
text_of (n ∷ s) = (take n s, drop n s)

abbrev read : ℕ → Bytes → List Entry
read zero s = []
read (suc n) s =
    let a = text_of s in
    let b = text_of a.1 in
    let c = text_of b.1 in record { name = a.0; connection = b.0; query = c.0 } ∷ read n c.1

abbrev decode : Bytes → Bytes ⊎ List Entry
decode [] = inl (codes "empty")
decode (n ∷ s) = inr (read n s)

abbrev disk : Storage Bytes
disk = record {
  encode = λ ps. inr (length (map entry_of ps) ∷ body (map entry_of ps));
  decode = decode;
  make_dir = none;
  create_temp = none;
  write_temp = none;
  written = 0;
  chmod = none;
  sync = none;
  close = none;
  rename = none;
}

text_of-text_code : (s t : Bytes) → text_of (text_code s ++ t) ≡ (s, t)
text_of-text_code s t = rw (take-append s t, drop-append s t) refl

abbrev daily : Entry
daily = record { name = codes " Daily "; connection = codes "prod"; query = codes "select 1" }
