-- ===== src/Secrets.antt =====
-- internal/secrets: the resolver of references with its cache (secrets.go), and the references that the
-- picker of fields builds (onepassword.go). The 1Password tool and the environment are arguments.
pub mod Cached
pub mod Reference
use d9s.Base.{
  Bool, true, false, List, [], ◌∷◌, Option, none, some, Bytes, ◌-◌, if◌then◌else◌, ◌⊎◌, inl, inr,
  equal, length, take, drop,
}
use d9s.Config.Connection.{is_op_ref, is_env_ref}

-- What Resolve and Validate fail with.
pub data SecretError (E : Type 0) : Type 0 where
  not_set : Bytes → SecretError E
  not_reference : Bytes → SecretError E
  op_failed : E → SecretError E

-- r.cache[v]
unfoldable pub cached : List (Bytes × Bytes) → Bytes → Option Bytes
unfolding equal
cached [] v = none
cached (p ∷ m) v = if equal p.0 v then some p.1 else cached m v

module _ {E : Type 0} where
  unfoldable pub looked_up : Bytes → Option Bytes → SecretError E ⊎ Bytes
  looked_up name none = inl (not_set name)
  looked_up name (some val) = inr val

  unfoldable pub remember :
      List (Bytes × Bytes) → Bytes → E ⊎ Bytes → List (Bytes × Bytes) × (SecretError E ⊎ Bytes)
  remember cache v (inl err) = (cache, inl (op_failed err))
  remember cache v (inr val) = ((v, val) ∷ cache, inr val)

  unfoldable pub from_cache :
      List (Bytes × Bytes)
      → Bytes
      → Option Bytes
      → E ⊎ Bytes
      → List (Bytes × Bytes) × (SecretError E ⊎ Bytes)
  unfolding remember
  from_cache cache v (some val) got = (cache, inr val)
  from_cache cache v none got = remember cache v got

  -- Resolve: the cache after it, and the secret. `env` is os.LookupEnv and `run_op` the tool.
  unfoldable pub resolve_secret :
      (Bytes → Option Bytes)
      → (Bytes → E ⊎ Bytes)
      → List (Bytes × Bytes)
      → Bytes
      → List (Bytes × Bytes) × (SecretError E ⊎ Bytes)
  unfolding from_cache cached looked_up is_op_ref is_env_ref equal
  resolve_secret env run_op cache v =
      let name = take (length v - 3) (drop 2 v) in
      if equal v []
      then (cache, inr [])
      else if is_env_ref v
      then (cache, looked_up name (env name))
      else if is_op_ref v
      then from_cache cache v (cached cache v) (run_op v)
      else (cache, inr v)

  unfoldable pub checked : E ⊎ Bytes → Option (SecretError E)
  checked (inl err) = some (op_failed err)
  checked (inr val) = none

  -- Validate
  unfoldable pub validate_ref : (Bytes → E ⊎ Bytes) → Bytes → Option (SecretError E)
  unfolding checked is_op_ref
  validate_ref run_op ref = if is_op_ref ref then checked (run_op ref) else some (not_reference ref)
