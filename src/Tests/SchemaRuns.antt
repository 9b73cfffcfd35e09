-- ===== src/Tests/SchemaRuns.antt =====
-- internal/schema on a concrete session.
use d9s.Base.{◌≡◌, refl, [], ◌∷◌, none, some, if◌then◌else◌, Bytes, codes, equal}
use d9s.Schema.{Cache, new_cache, ready, claim_tables, claim_columns, resolve}
use d9s.Schema.Loads.{
  System, Target, claim, key_of, Reach, claims, fresh, step, count, is_marked, as_count,
  Reach-count,
}
use d9s.Schema.Resolved.{Means, resolve-Means}

abbrev listing : Cache
listing = record {
  tables = record { names = codes "public.Users" ∷ codes "Events" ∷ []; state = ready };
  cols = [];
}

leaf_found : resolve listing (codes " users ") ≡ some (codes "public.Users")
unfolding resolve equal
leaf_found = refl

resolve-Means_example : Means listing (codes " users ") (codes "public.Users")
resolve-Means_example = resolve-Means listing (codes " users ") (codes "public.Users") leaf_found

abbrev claimed : System → Target → System
claimed s t = record {
  cache = (claim s.cache t).0;
  flights = if (claim s.cache t).1 then key_of t ∷ s.flights else s.flights;
}

abbrev start : System
start = record { cache = new_cache; flights = [] }

-- The columns of a table claimed twice, in two spellings, with the table listing between.
abbrev thrice : System
thrice = claimed (claimed (claimed start (some (codes "Users"))) none) (some (codes "users "))

thrice-Reach : Reach Bytes thrice
thrice-Reach =
    step (step (step fresh (claims start (some (codes "Users")))) (claims _ none))
      (claims _ (some (codes "users ")))

Reach-count_example :
    count (some (codes "users")) thrice.flights
    ≡ as_count (is_marked thrice.cache (some (codes "users")))
Reach-count_example = Reach-count thrice-Reach (some (codes "users"))

two_flights : thrice.flights ≡ none ∷ some (codes "users") ∷ []
unfolding claim_tables claim_columns equal
two_flights = refl
