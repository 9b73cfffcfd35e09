-- ===== src/Certificates/Verified.antt =====
-- Which servers a connection accepts, for each mode.
use mathlib.Core.Path.{subst}
use d9s.Base.{
  ◌≡◌, ◌↔◌, refl, sym, Bool, true, false, ◌&&◌, ◌||◌, List, [], ◌∷◌, Option, none, some, Bytes,
  codes, ◌⊎◌, inl, inr, equal, equal_iff, if◌then◌else◌, Bool-cases, Option-cases, arith,
}
use d9s.Config.Connection.{Connection, Tls, tls_disable, tls_require, effective_tls_mode, is_empty}
use d9s.Certificates.{
  Sources, TlsConfig, ChainError, TlsError, settings_of, material, parsed_roots, roots_from,
  root_pool, chained, parse_chain, verified, verify_parsed, chain_verifier, with_roots, by_mode,
  own_pair, with_certificate, client_certificate, tls_config_for,
}

no_error : {E : Type 0} → Option E → Bool
no_error none = true
no_error (some err) = false

allowed : {E : Type 0} → Option (List Bytes → Option E) → List Bytes → Bool
allowed none raws = true
allowed (some f) raws = no_error (f raws)

-- What crypto/tls does with a configuration for the certificates that a server presents: unless that is
-- skipped, its own verification for the roots and the name of the configuration, and then the function of
-- the configuration, if there is one.
pub accepts :
    {P K E : Type 0} → (Option P → Bytes → List Bytes → Bool) → TlsConfig P K E → List Bytes → Bool
accepts standard cfg raws =
    (cfg.insecure_skip_verify || standard cfg.root_cas cfg.server_name raws)
    && allowed cfg.verify_peer_certificate raws

module _ {P K X E : Type 0} (src : Sources P K X E) where
  -- The roots that a setting names: those of the system for none, and else those of its material.
  pub RootsOf : Bytes → Option P → Type 0
  RootsOf ca roots =
      ((ca ≡ []) × (roots ≡ none))
      ⊎ ((pem : Bytes) × (pool : P) × (material src ca ≡ inr pem)
          × (src.parse_roots pem ≡ some pool)
          × (roots ≡ some pool))

  -- The certificates of a text each.
  pub Parsed : List Bytes → List X → Type 0
  Parsed [] [] = Unit
  Parsed [] (x ∷ xs) = ⊥
  Parsed (raw ∷ raws) [] = ⊥
  Parsed (raw ∷ raws) (x ∷ xs) = (src.parse_certificate raw ≡ inr x) × Parsed raws xs

  -- A server is trusted: it presents certificates, and the first one is verified for the roots, with the
  -- others as intermediates.
  pub IsTrusted : Option P → List Bytes → Type 0
  IsTrusted roots raws =
      (x : X) × (xs : List X) × Parsed raws (x ∷ xs) × (src.verify roots xs x ≡ none)

  -- What a configuration of a mode accepts.
  pub Serves :
      (Option P → Bytes → List Bytes → Bool) → Bytes → Tls → Bytes → TlsConfig P K E → Type 0
  Serves standard mode settings host cfg =
      ((mode ≡ tls_require) × ((raws : List Bytes) → accepts standard cfg raws ≡ true))
      ⊎ ((mode ≡ codes "verify-ca")
          × (roots : Option P) × RootsOf settings.ca roots
          × ((raws : List Bytes) → (accepts standard cfg raws ≡ true) ↔ IsTrusted roots raws))
      ⊎ ((mode ≡ codes "verify-full")
          × (roots : Option P) × RootsOf settings.ca roots
          × ((raws : List Bytes)
              → accepts standard cfg raws
                ≡ standard roots
                    (if is_empty settings.server_name then host else settings.server_name) raws))

  -- An error connects to nothing, no configuration is plaintext, and every other one serves its mode.
  pub Promised :
      (Option P → Bytes → List Bytes → Bool)
      → Bytes
      → Tls
      → Bytes
      → TlsError E ⊎ Option (TlsConfig P K E)
      → Type 0
  Promised standard mode settings host (inl err) = Unit
  Promised standard mode settings host (inr none) = mode ≡ tls_disable
  Promised standard mode settings host (inr (some cfg)) = Serves standard mode settings host cfg

  chained-inr :
      (a : E ⊎ X) (b : E ⊎ List X) (xs : List X)
      → chained src a b ≡ inr xs
      → (x : X) × (ys : List X) × (xs ≡ x ∷ ys) × (a ≡ inr x) × (b ≡ inr ys)
  unfolding chained
  chained-inr (inl err) b xs h = cc
  chained-inr (inr x) (inl err) xs h = cc
  chained-inr (inr x) (inr ys) xs h = let same : xs ≡ x ∷ ys = cc in (x, ys, same, refl, refl)

  parse_chain-Parsed :
      (raws : List Bytes) (xs : List X) → parse_chain src raws ≡ inr xs → Parsed raws xs
  unfolding parse_chain Parsed
  parse_chain-Parsed [] [] h = tt
  parse_chain-Parsed [] (x ∷ xs) h = cc
  parse_chain-Parsed (raw ∷ raws) xs h =
      let (x, ys, q, a, b) = chained-inr (src.parse_certificate raw) (parse_chain src raws) xs h in
      subst (Parsed (raw ∷ raws)) (sym q) (a, parse_chain-Parsed raws ys b)

  Parsed-parse_chain :
      (raws : List Bytes) (xs : List X) → Parsed raws xs → parse_chain src raws ≡ inr xs
  unfolding parse_chain Parsed chained
  Parsed-parse_chain [] [] p = refl
  Parsed-parse_chain [] (x ∷ xs) p = absurd p
  Parsed-parse_chain (raw ∷ raws) [] p = absurd p
  Parsed-parse_chain (raw ∷ raws) (x ∷ xs) p = rw (p.0, Parsed-parse_chain raws xs p.1) refl

  verified-none : (o : Option E) → verified src o ≡ none → o ≡ none
  unfolding verified
  verified-none none h = refl
  verified-none (some err) h = cc

  verify_parsed-IsTrusted :
      (roots : Option P) (raws : List Bytes) (r : E ⊎ List X)
      → parse_chain src raws ≡ r
      → verify_parsed src roots r ≡ none
      → IsTrusted roots raws
  unfolding verify_parsed IsTrusted
  verify_parsed-IsTrusted roots raws (inl err) e h = cc
  verify_parsed-IsTrusted roots raws (inr []) e h = cc
  verify_parsed-IsTrusted roots raws (inr (x ∷ xs)) e h =
      (x, xs, parse_chain-Parsed raws (x ∷ xs) e, verified-none (src.verify roots xs x) h)

  chain_verifier-IsTrusted :
      (roots : Option P) (raws : List Bytes)
      → chain_verifier src roots raws ≡ none
      → IsTrusted roots raws
  unfolding chain_verifier
  chain_verifier-IsTrusted roots [] h = cc
  chain_verifier-IsTrusted roots (raw ∷ raws) h =
      verify_parsed-IsTrusted roots (raw ∷ raws) (parse_chain src (raw ∷ raws)) refl h

  IsTrusted-chain_verifier :
      (roots : Option P) (raws : List Bytes)
      → IsTrusted roots raws
      → chain_verifier src roots raws ≡ none
  unfolding chain_verifier IsTrusted verify_parsed verified
  IsTrusted-chain_verifier roots [] (x, xs, p, v) = absurd (unfold Parsed in p)
  IsTrusted-chain_verifier roots (raw ∷ raws) (x, xs, p, v) =
      rw (Parsed-parse_chain (raw ∷ raws) (x ∷ xs) p, v) refl

  no_error-none : (o : Option (ChainError E)) → (no_error o ≡ true) ↔ (o ≡ none)
  unfolding no_error
  no_error-none none = (λ h. refl, λ h. refl)
  no_error-none (some err) = (λ h. cc, λ h. cc)

  trusted :
      (roots : Option P) (raws : List Bytes)
      → (no_error (chain_verifier src roots raws) ≡ true) ↔ IsTrusted roots raws
  trusted roots raws =
      let q = no_error-none (chain_verifier src roots raws) in
      (
        λ h. chain_verifier-IsTrusted roots raws (q.0 h),
        λ t. q.1 (IsTrusted-chain_verifier roots raws t),
      )

  roots_from-RootsOf :
      (ca : Bytes) (r : TlsError E ⊎ Bytes) (roots : Option P)
      → material src ca ≡ r
      → roots_from src ca r ≡ inr roots
      → RootsOf ca roots
  unfolding roots_from RootsOf
  roots_from-RootsOf ca (inl err) roots e h = cc
  roots_from-RootsOf ca (inr pem) roots e h = elim (Option-cases (src.parse_roots pem)) [
    | inl f ↦ cc (rw (parsed_roots, f) at h)
    | inr (pool, f) ↦
        let same : roots ≡ some pool = cc (rw (parsed_roots, f) at h) in inr (pem, pool, e, f, same)
  ]

  root_pool-RootsOf :
      (ca : Bytes) (roots : Option P) → root_pool src ca ≡ inr roots → RootsOf ca roots
  unfolding root_pool
  root_pool-RootsOf [] roots h = let same : roots ≡ none = cc in unfold RootsOf in inl (refl, same)
  root_pool-RootsOf (c ∷ ca) roots h =
      roots_from-RootsOf (c ∷ ca) (material src (c ∷ ca)) roots refl h

  module _ (standard : Option P → Bytes → List Bytes → Bool) (mode : Bytes) (settings : Tls)
      (host : Bytes) where
    with_roots-Promised :
        (cfg : Option P → TlsConfig P K E) (r : TlsError E ⊎ Option P)
        → root_pool src settings.ca ≡ r
        → ((roots : Option P)
            → RootsOf settings.ca roots
            → Serves standard mode settings host (cfg roots))
        → Promised standard mode settings host (with_roots src cfg r)
    unfolding with_roots Promised
    with_roots-Promised cfg (inl err) e h = tt
    with_roots-Promised cfg (inr roots) e h = h roots (root_pool-RootsOf settings.ca roots e)

    -- A configuration that nothing but the certificates was set in.
    IsNew : TlsConfig P K E → Type 0
    IsNew cfg = (cfg.insecure_skip_verify ≡ false) × (cfg.verify_peer_certificate ≡ none)

    by_mode-Promised :
        (cfg : TlsConfig P K E)
        → IsNew cfg
        → Promised standard mode settings host (by_mode src mode settings host cfg)
    unfolding Promised Serves by_mode accepts allowed IsNew
    by_mode-Promised cfg n = elim (Bool-cases (equal mode tls_require)) [
      | inl e ↦ rw e (inl ((equal_iff mode tls_require).0 e, λ raws. rw n.1 refl))
      | inr e ↦ elim (Bool-cases (equal mode (codes "verify-ca"))) [
        | inl f ↦
            rw (e, f)
              (with_roots-Promised _ (root_pool src settings.ca) refl (λ roots r. inr (
                inl (
                  (equal_iff mode (codes "verify-ca")).0 f,
                  roots,
                  r,
                  λ raws. trusted roots raws,
                ))))
        | inr f ↦ elim (Bool-cases (equal mode (codes "verify-full"))) [
          | inl g ↦
              rw (e, f, g)
                (with_roots-Promised _ (root_pool src settings.ca) refl (λ roots r. inr (
                  inr (
                    (equal_iff mode (codes "verify-full")).0 g,
                    roots,
                    r,
                    λ raws. rw (n.0, n.1) ground arith,
                  ))))
          | inr g ↦ rw (e, f, g) tt
        ]
      ]
    ]

    own_pair-IsNew : (o : Option K) → IsNew (own_pair src o)
    unfolding IsNew
    own_pair-IsNew none = (refl, refl)
    own_pair-IsNew (some k) = (refl, refl)

    with_certificate-Promised :
        (cert : TlsError E ⊎ Option K)
        → Promised standard mode settings host (with_certificate src mode settings host cert)
    unfolding Promised with_certificate
    with_certificate-Promised (inl err) = tt
    with_certificate-Promised (inr cert) =
        by_mode-Promised (own_pair src cert) (own_pair-IsNew cert)

  -- Where the configuration of a connection is made, no configuration is for the mode disable, and one
  -- serves its mode: require accepts any server; verify-ca accepts a server exactly when its first
  -- certificate is verified for the roots of the setting ca, with its others as intermediates, whatever
  -- its name; and verify-full accepts what the verification of crypto/tls does for those roots and
  -- server_name, or the host without one. Without a ca the roots are those of the system.
  pub tls_config_for-Promised :
      (standard : Option P → Bytes → List Bytes → Bool) (conn : Connection)
      → Promised standard
          (effective_tls_mode conn)
          (settings_of conn.tls)
          conn.host
          (tls_config_for src conn)
  unfolding Promised tls_config_for
  tls_config_for-Promised standard conn =
      elim (Bool-cases (equal (effective_tls_mode conn) tls_disable)) [
        | inl e ↦ rw e ((equal_iff (effective_tls_mode conn) tls_disable).0 e)
        | inr e ↦ rw e (
            with_certificate-Promised standard (effective_tls_mode conn) (settings_of conn.tls)
              conn.host (client_certificate src (settings_of conn.tls)))
      ]
