-- ===== src/Complete/Scanned.antt =====
-- What the completion of Redis keys answers from the scans in the cache.
use d9s.Base.{
  ◌≡◌, not, if◌then◌else◌, Bool, true, false, ◌&&◌, List, [], ◌∷◌, Bytes, length, take, equal,
}
use d9s.Schema.{Cache, columns, is_ready}
use d9s.Complete.Candidates.{filter_redis_keys, redis_partial_marker}

-- The keys of a list that start with a prefix, and whether a scan is cut short.
abbrev pub keys_under : List Bytes → Bytes → List Bytes
keys_under keys prefix = (filter_redis_keys keys prefix).0

abbrev pub is_partial : List Bytes → Bool
is_partial keys = (filter_redis_keys keys []).1

-- The keys of a store that start with a prefix, in their order; the marker of a scan that was cut short is
-- no key.
unfoldable pub starting : Bytes → List Bytes → List Bytes
starting prefix [] = []
starting prefix (k ∷ keys) =
    let rest = starting prefix keys in
    if not (equal k redis_partial_marker) && equal (take (length prefix) k) prefix
    then k ∷ rest
    else rest

-- A scan in the cache that was not cut short holds the keys under its prefix.
unfoldable pub Faithful : Cache → List Bytes → Bytes → Type 0
Faithful c all p =
    is_ready (columns c p).1 ≡ true
    → is_partial (columns c p).0 ≡ false
    → (columns c p).0 ≡ starting p all
