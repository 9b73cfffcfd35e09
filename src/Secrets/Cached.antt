-- ===== src/Secrets/Cached.antt =====
-- What the cache of the resolver remembers.
use d9s.Base.{
  ◌≡◌, refl, List, [], Option, none, some, Bytes, ◌⊎◌, inl, inr, equal, equal_refl, Bool-cases,
}
use d9s.Config.Connection.{is_op_ref, is_env_ref}
use d9s.Secrets.{cached, from_cache, remember, resolve_secret}

module _ {E : Type 0} where
  from_cache_again :
      (cache : List (Bytes × Bytes)) (v val : Bytes) (hit : Option Bytes) (got got' : E ⊎ Bytes)
      → cached cache v ≡ hit
      → (from_cache cache v hit got).1 ≡ inr val
      → (from_cache
          (from_cache cache v hit got).0
          v
          (cached (from_cache cache v hit got).0 v)
          got').1
        ≡ inr val
  unfolding from_cache remember cached
  from_cache_again cache v val (some w) got got' h k = rw h k
  from_cache_again cache v val none (inl err) got' h k = cc
  from_cache_again cache v val none (inr w) got' h k = rw (equal_refl v) k

  -- A reference that was resolved once is resolved to the same secret again, whatever the tool answers by
  -- then, as long as the environment stays.
  pub resolve_secret-resolve_secret :
      (env : Bytes → Option Bytes) (run_op run_op' : Bytes → E ⊎ Bytes)
      (cache : List (Bytes × Bytes)) (v val : Bytes)
      → (resolve_secret env run_op cache v).1 ≡ inr val
      → (resolve_secret env run_op' (resolve_secret env run_op cache v).0 v).1 ≡ inr val
  unfolding resolve_secret
  resolve_secret-resolve_secret env run_op run_op' cache v val = elim (Bool-cases (equal v [])) [
    | inl e ↦ rw e (λ h. h)
    | inr e ↦ elim (Bool-cases (is_env_ref v)) [
      | inl f ↦ rw (e, f) (λ h. h)
      | inr f ↦ elim (Bool-cases (is_op_ref v)) [
        | inl g ↦
            rw (e, f, g) (from_cache_again cache v val (cached cache v) (run_op v) (run_op' v) refl)
        | inr g ↦ rw (e, f, g) (λ h. h)
      ]
    ]
  ]
