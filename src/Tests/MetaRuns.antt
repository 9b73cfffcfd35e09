-- ===== src/Tests/MetaRuns.antt =====
-- internal/meta on concrete commands.
use d9s.Base.{
  ◌≡◌, refl, true, false, [], ◌∷◌, ◌++◌, some, codes, inr, inl, equal, has_prefix, trim_space,
}
use d9s.Meta.{Command, unknown_verb, edit_distance, suggestion, read_arg, parse}
use d9s.Meta.Argument.{double_quotes, read_arg-double_quotes}
use d9s.Meta.Parsed.{IsCommand, parse-IsCommand}
use d9s.Meta.Distance.{
  levenshtein, onto, IsSuggestion, edit_distance-levenshtein, suggestion-IsSuggestion,
}

edit_distance-levenshtein_example :
    edit_distance (codes "kitten") (codes "sitting")
    ≡ levenshtein (onto (codes "kitten") []) (onto (codes "sitting") [])
edit_distance-levenshtein_example = edit_distance-levenshtein (codes "kitten") (codes "sitting")

kitten_sitting : edit_distance (codes "kitten") (codes "sitting") ≡ 3
unfolding edit_distance
kitten_sitting = refl

suggestion-IsSuggestion_example : IsSuggestion (codes "dtt") (suggestion (codes "dtt"))
suggestion-IsSuggestion_example = suggestion-IsSuggestion (codes "dtt")

no_quote : has_prefix (codes " x") (codes "\"") ≡ false
unfolding has_prefix
no_quote = refl

read_arg-double_quotes_example :
    read_arg (b'"' ∷ double_quotes (codes "a\"b c") ++ (b'"' ∷ codes " x"))
    ≡ some (codes "a\"b c", codes " x")
read_arg-double_quotes_example = read_arg-double_quotes (codes "a\"b c") (codes " x") no_quote

abbrev described : Command
described = record { verb = codes "d"; plus = true; arg = codes "my table" }

described_run : parse (codes " \\d+ \"my table\" ") ≡ inr described
unfolding parse equal
described_run = refl

typo_run : parse (codes "\\dtt") ≡ inl (unknown_verb (codes "dtt") (some (codes "dt")))
unfolding parse equal
typo_run = refl

parse-IsCommand_example : IsCommand (trim_space (codes " \\d+ \"my table\" ")) described
parse-IsCommand_example = parse-IsCommand (codes " \\d+ \"my table\" ") described described_run
