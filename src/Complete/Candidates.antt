-- ===== src/Complete/Candidates.antt =====
-- internal/ui/complete.go: the names that a request can be answered with, from the schema cache, and
-- their order.
use d9s.Base.{
  ℕ, zero, suc, Bool, true, false, not, ◌&&◌, ◌||◌, List, [], ◌∷◌, ◌++◌, Option, none, some, Bytes,
  codes, ltb, leb, ◌==◌, if◌then◌else◌, length, take, drop, equal, has_prefix, contains, lower_byte,
  to_lower, to_upper,
}
use d9s.Config.Connection.{contains_text}
use d9s.Schema.{Cache, is_ready, columns, resolve, tables}
use d9s.Complete.{CompletionKind, keywords, redis_names, redis_keys, CompletionRequest}
use d9s.Complete.Words.{sql_keywords, redis_commands}

-- schemaFetch
pub data SchemaFetch : Type 0 where
  listing : SchemaFetch
  of_table : Bytes → SchemaFetch

-- completionMaxItems
abbrev pub completion_max_items : ℕ
completion_max_items = 200

-- redisPartialMarker, in UTF-8
abbrev pub redis_partial_marker : Bytes
redis_partial_marker = 226 ∷ 128 ∷ 166 ∷ []

-- The loop of tableCandidates: strings.EqualFold, on ASCII.
unfoldable pub names_under : Bytes → List Bytes → List Bytes
unfolding equal to_upper
names_under prefix [] = []
names_under prefix (n ∷ names) =
    let rest = names_under prefix names in
    if ltb (length prefix) (length n) && equal (to_upper (take (length prefix) n)) (to_upper prefix)
    then drop (length prefix) n ∷ rest
    else rest

-- tableCandidates
unfoldable pub table_candidates : Cache → Bytes → List Bytes × List SchemaFetch
unfolding tables names_under equal
table_candidates c qualifier =
    let (names, state) = tables c in
    if not (is_ready state)
    then ([], listing ∷ [])
    else if equal qualifier []
    then (names, [])
    else (names_under (qualifier ++ codes ".") names, [])

-- out, need and known of columnCandidates; `seen` holds what `out` holds.
pub record Gathered : Type 0 where
  pub out : List Bytes
  pub need : List SchemaFetch
  pub known : Bool

unfoldable pub add_new : List Bytes → List Bytes → List Bytes
unfolding contains_text
add_new out [] = out
add_new out (c ∷ cols) = add_new (if contains_text out c then out else out ++ c ∷ []) cols

-- One table of the loop of columnCandidates.
unfoldable pub gather_table : Cache → Bytes → Gathered → Gathered
unfolding resolve columns add_new
gather_table c t g = elim (resolve c t) [
  | none ↦ g
  | some name ↦
      let (cols, state) = columns c name in
      if is_ready state
      then record { out = add_new g.out cols; need = g.need; known = true }
      else record { out = g.out; need = g.need ++ of_table name ∷ []; known = true }
]

unfoldable pub gather : Cache → List Bytes → Gathered → Gathered
unfolding gather_table
gather c [] g = g
gather c (t ∷ ts) g = gather c ts (gather_table c t g)

-- columnCandidates
unfoldable pub column_candidates : Cache → List Bytes → List Bytes × List SchemaFetch
unfolding tables gather
column_candidates c ts =
    let g = gather c ts (record { out = []; need = []; known = false }) in
    if not (is_ready (tables c).1)
    then ([], listing ∷ [])
    else if g.known
    then (g.out, g.need)
    else ([], [])

-- filterRedisKeys: the keys, and whether the scan was cut short.
unfoldable pub filter_redis_keys : List Bytes → Bytes → List Bytes × Bool
unfolding equal has_prefix
filter_redis_keys [] prefix = ([], false)
filter_redis_keys (k ∷ keys) prefix =
    let (out, partial) = filter_redis_keys keys prefix in
    if equal k redis_partial_marker
    then (out, true)
    else if has_prefix k prefix
    then (k ∷ out, partial)
    else (out, partial)

-- The loop of redisKeyCandidates over the prefixes that are shorter than `n` bytes, from the longest down.
unfoldable pub widest_scan : Cache → Bytes → ℕ → List Bytes × List SchemaFetch
unfolding columns filter_redis_keys
widest_scan c prefix zero = ([], of_table prefix ∷ [])
widest_scan c prefix (suc i) =
    let wider = widest_scan c prefix i in
    let (keys, state) = columns c (take i prefix) in
    let (full, partial) = filter_redis_keys keys prefix in
    if not (is_ready state)
    then wider
    else if partial && ltb i (length prefix)
    then ([], of_table prefix ∷ [])
    else (full, [])

-- redisKeyCandidates
unfoldable pub redis_key_candidates : Cache → Bytes → List Bytes × List SchemaFetch
unfolding widest_scan
redis_key_candidates c prefix = widest_scan c prefix (suc (length prefix))

unfoldable pub lowered : List Bytes → List Bytes
unfolding to_lower
lowered [] = []
lowered (k ∷ ks) = to_lower k ∷ lowered ks

-- casedKeywords
unfoldable pub cased_keywords : Bytes → List Bytes
unfolding lowered equal to_lower sql_keywords
cased_keywords word =
    if equal word [] || not (equal word (to_lower word)) then sql_keywords else lowered sql_keywords

-- completionCandidates
unfoldable pub completion_candidates : Cache → CompletionRequest → List Bytes × List SchemaFetch
unfolding cased_keywords redis_commands redis_key_candidates table_candidates column_candidates
completion_candidates c req = elim req.kind [
  | keywords ↦ (cased_keywords req.word, [])
  | redis_names ↦ (redis_commands, [])
  | redis_keys ↦ redis_key_candidates c req.word
  | CompletionKind.tables ↦ table_candidates c req.qualifier
  | CompletionKind.columns ↦ column_candidates c req.tables
  | CompletionKind.none_here ↦ ([], [])
]

-- a < b, on strings
unfoldable pub less_text : Bytes → Bytes → Bool
less_text s [] = false
less_text [] (d ∷ t) = true
less_text (c ∷ s) (d ∷ t) = ltb c d || (c == d && less_text s t)

unfoldable pub insert_text : Bytes → List Bytes → List Bytes
unfolding less_text
insert_text x [] = x ∷ []
insert_text x (y ∷ ys) =
    let rest = insert_text x ys in if less_text x y then x ∷ y ∷ ys else y ∷ rest

-- sort.Strings
unfoldable pub sort_texts : List Bytes → List Bytes
unfolding insert_text
sort_texts [] = []
sort_texts (x ∷ xs) = insert_text x (sort_texts xs)

-- The two cases of rankCandidates, on the word in lower case.
unfoldable pub is_prefixed : Bytes → Bytes → Bool
unfolding has_prefix to_lower
is_prefixed lower n = has_prefix (to_lower n) lower

unfoldable pub is_contained : Bytes → Bytes → Bool
unfolding is_prefixed contains equal to_lower
is_contained lower n =
    not (is_prefixed lower n) && (not (equal lower []) && contains (to_lower n) lower)

-- The loop of rankCandidates for one of its two lists.
unfoldable pub pick : (Bytes → Bool) → List Bytes → List Bytes → List Bytes
unfolding contains_text equal
pick test seen [] = []
pick test seen (n ∷ names) =
    let skip = equal n [] || contains_text seen n in
    let rest = pick test (if skip then seen else n ∷ seen) names in
    if skip || not (test n) then rest else n ∷ rest

-- rankCandidates
unfoldable pub rank_candidates : List Bytes → Bytes → List Bytes
unfolding pick is_prefixed is_contained sort_texts to_lower
rank_candidates names word =
    let lower = to_lower word in
    take completion_max_items (
      sort_texts (pick (is_prefixed lower) [] names)
      ++ sort_texts (pick (is_contained lower) [] names))

-- commonPrefix
unfoldable pub common_prefix : Bytes → Bytes → Bytes
unfolding lower_byte
common_prefix [] b = []
common_prefix (c ∷ a) [] = []
common_prefix (c ∷ a) (d ∷ b) =
    let rest = common_prefix a b in if lower_byte c == lower_byte d then c ∷ rest else []

-- The loop of sharedPrefix: what the matching items share, none before the first one, and whether there
-- was a second one.
unfoldable pub share : ℕ → Bytes → Option Bytes → Bool → List Bytes → Bytes
unfolding is_prefixed common_prefix
share size lower none more [] = []
share size lower (some shared) more [] = if more && ltb size (length shared) then shared else []
share size lower none more (item ∷ items) =
    let skipped = share size lower none more items in
    let first = share size lower (some item) false items in
    if is_prefixed lower item then first else skipped
share size lower (some shared) more (item ∷ items) =
    let skipped = share size lower (some shared) more items in
    let both = common_prefix shared item in
    let next = share size lower (some both) true items in
    if is_prefixed lower item then (if leb (length both) size then [] else next) else skipped

-- sharedPrefix
unfoldable pub shared_prefix : List Bytes → Bytes → Bytes
unfolding share to_lower
shared_prefix items word = share (length word) (to_lower word) none false items
