-- ===== src/Config/Valid/Deployment.antt =====
-- What the checks of time limits, TLS blocks and Redis deployments leave.
use d9s.Base.{
  ◌⊎◌, inl, inr, ◌≡◌, ◌≢◌, refl, false, not, ◌&&◌, ◌||◌, sym, ap, ltb, equal, codes, [], ◌∷◌,
  Option, none, some, Bytes, equal_iff, arith, Bool-cases,
}
use d9s.Base.Int.{ℤ, pos, negsuc}
use d9s.Config.Connection.{
  Tls, Connection, redis_sentinel, redis_standalone, redis_cluster, redis_modes, tls_modes,
  is_empty, contains_text, effective_redis_mode,
}
use d9s.Config.Validate.{validate_redis, validate_tls_block, is_none, is_bad_timeout}
use d9s.Config.Valid.{IsTimeout, IsTlsBlock, IsDeployment}
use d9s.Config.Valid.Checks.{
  fail_if-none, first_error-none, empty_nil, not_empty_list, redis_master,
}

pub is_bad_timeout-IsTimeout : (t : ℤ) → is_bad_timeout t ≡ false → IsTimeout t
is_bad_timeout-IsTimeout (negsuc n) h = cc
is_bad_timeout-IsTimeout (pos n) h = elim (Bool-cases (ltb 0 n)) [
  | inl e ↦ inr (n, refl, ground arith)
  | inr e ↦ inl (ap (λ k. pos k) (ground arith))
]

pub tls_block_mode :
    (v : Bytes)
    → (not (is_empty v) && not (contains_text tls_modes v)) ≡ false
    → (v ≡ [])
      ⊎ (v ≡ codes "disable")
      ⊎ (v ≡ codes "require")
      ⊎ (v ≡ codes "verify-ca")
      ⊎ (v ≡ codes "verify-full")
unfolding contains_text
tls_block_mode v h = ground (
  arith,
  empty_nil v,
  equal_iff (codes "disable") v,
  equal_iff (codes "require") v,
  equal_iff (codes "verify-ca") v,
  equal_iff (codes "verify-full") v,
)

pub pair_of :
    (a b : Bytes)
    → (is_empty a && not (is_empty b) || not (is_empty a) && is_empty b) ≡ false
    → ((a ≡ []) × (b ≡ [])) ⊎ ((a ≢ []) × (b ≢ []))
pair_of [] [] h = inl (refl, refl)
pair_of [] (y ∷ b) h = cc
pair_of (x ∷ a) [] h = cc
pair_of (x ∷ a) (y ∷ b) h = inr (λ e. cc, λ e. cc)

pub validate_tls_block-IsTlsBlock :
    (c : Connection) (o : Option Tls) → validate_tls_block c o ≡ none → IsTlsBlock o
unfolding validate_tls_block
validate_tls_block-IsTlsBlock c none h = tt
validate_tls_block-IsTlsBlock c (some t) h =
    let parts = first_error-none _ h in
    (
      tls_block_mode t.mode (fail_if-none _ _ parts.0),
      pair_of t.cert t.key (fail_if-none _ _ parts.1.0),
    )

pub redis_mode :
    (v : Bytes)
    → (not (is_empty v) && not (contains_text redis_modes v)) ≡ false
    → (v ≡ []) ⊎ (v ≡ codes "standalone") ⊎ (v ≡ codes "cluster") ⊎ (v ≡ codes "sentinel")
unfolding contains_text
redis_mode v h = ground (
  arith,
  empty_nil v,
  equal_iff (codes "standalone") v,
  equal_iff (codes "cluster") v,
  equal_iff (codes "sentinel") v,
)

-- The checks of a deployment, on the mode that is in effect.
pub deployment_of :
    (c : Connection) (mode : Bytes)
    → effective_redis_mode c ≡ mode
    → validate_redis c ≡ none
    → ((equal mode redis_sentinel && is_empty c.master_name) ≡ false)
      × ((not (equal mode redis_sentinel) && not (is_empty c.master_name)) ≡ false)
      × ((equal mode redis_standalone && not (is_none c.addresses)) ≡ false)
      × ((equal mode redis_cluster
            && not (is_empty c.database)
            && not (equal c.database (codes "0")))
          ≡ false)
unfolding validate_redis
deployment_of c mode e h =
    let parts = first_error-none _ h in
    rw (sym e) (
      fail_if-none _ _ parts.1.0,
      fail_if-none _ _ parts.1.1.0,
      fail_if-none _ _ parts.1.1.1.0,
      fail_if-none _ _ parts.1.1.1.1.0,
    )

pub standalone_mode :
    (c : Connection)
    → validate_redis c ≡ none
    → effective_redis_mode c ≡ redis_standalone
    → (c.master_name ≡ []) × (c.addresses ≡ [])
standalone_mode c h e =
    let d = deployment_of c redis_standalone e h in
    (
      empty_nil c.master_name (unfold equal in d.1),
      not_empty_list c.addresses (unfold equal in d.2),
    )

pub cluster_mode :
    (c : Connection)
    → validate_redis c ≡ none
    → effective_redis_mode c ≡ redis_cluster
    → (c.master_name ≡ []) × ((c.database ≡ []) ⊎ (c.database ≡ codes "0"))
cluster_mode c h e =
    let d = deployment_of c redis_cluster e h in
    let database : (not (is_empty c.database) && not (equal c.database (codes "0"))) ≡ false =
      unfold equal in d.3 in
    (
      empty_nil c.master_name (unfold equal in d.1),
      elim (Bool-cases (is_empty c.database)) [
        | inl f ↦ inl (empty_nil c.database (rw f))
        | inr f ↦ inr ((equal_iff c.database (codes "0")).0 (ground arith))
      ],
    )

pub redis_mode_known :
    (c : Connection)
    → validate_redis c ≡ none
    → (not (is_empty c.mode) && not (contains_text redis_modes c.mode)) ≡ false
unfolding validate_redis
redis_mode_known c h = fail_if-none _ _ (first_error-none _ h).0

pub validate_redis-IsDeployment : (c : Connection) → validate_redis c ≡ none → IsDeployment c
validate_redis-IsDeployment c h = elim (redis_mode c.mode (redis_mode_known c h)) [
  | inl e ↦
      let alone = standalone_mode c h (unfold effective_redis_mode in rw e refl) in
      inl (inl e, alone.0, alone.1)
  | inr (inl e) ↦
      let alone = standalone_mode c h (unfold effective_redis_mode in rw e refl) in
      inl (inr e, alone.0, alone.1)
  | inr (inr (inl e)) ↦
      let cluster = cluster_mode c h (unfold effective_redis_mode in rw e refl) in
      inr (inl (e, cluster.0, cluster.1))
  | inr (inr (inr e)) ↦ inr (inr (e, redis_master c h (unfold effective_redis_mode in rw e refl)))
]
