-- ===== src/Tests/ListingRuns.antt =====
-- internal/mcp/tools.go on a concrete configuration.
use d9s.Base.{◌≡◌, refl, true, ◌++◌, [], ◌∷◌, codes, equal, has_prefix}
use d9s.Config.Connection.{is_op_ref, is_env_ref}
use d9s.Mcp.Listing.{list_connections}
use d9s.Mcp.Listing.Withheld.{holding, list_connections-password_ref}
use d9s.Tests.ConfigRuns.{prod}

list_connections-password_ref_example :
    list_connections true ((prod ∷ []) ++ holding (codes "hunter2") prod ∷ [])
    ≡ list_connections true ((prod ∷ []) ++ holding (codes "letmein") prod ∷ [])
unfolding equal is_op_ref has_prefix is_env_ref
list_connections-password_ref_example =
    list_connections-password_ref true (prod ∷ []) [] prod (codes "hunter2") (codes "letmein") refl
      refl refl refl
