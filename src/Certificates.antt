-- ===== src/Certificates.antt =====
-- internal/db/tls.go: the TLS configuration of a target. The resolver of secrets, the files and the parsers
-- of crypto/tls and crypto/x509 are parameters: P is a pool of roots, K a key pair, X a certificate, E their error.
pub mod Verified
use d9s.Base.{
  ℕ, Bool, true, false, ◌||◌, List, [], ◌∷◌, Option, none, some, Bytes, codes, if◌then◌else◌, ◌⊎◌,
  inl, inr, equal,
}
use d9s.Config.Connection.{
  Tls, Connection, tls_disable, tls_require, is_op_ref, is_env_ref, is_empty, effective_tls_mode,
}

-- Resolve of the resolver, if there is one, os.ReadFile, AppendCertsFromPEM, tls.X509KeyPair,
-- x509.ParseCertificate, and Verify of a certificate with roots and intermediates
pub record Sources (P K X E : Type 0) : Type 0 where
  pub resolver : Option (Bytes → E ⊎ Bytes)
  pub read_file : Bytes → E ⊎ Bytes
  pub parse_roots : Bytes → Option P
  pub key_pair : Bytes → Bytes → E ⊎ K
  pub parse_certificate : Bytes → E ⊎ X
  pub verify : Option P → List X → X → Option E

pub data TlsError (E : Type 0) : Type 0 where
  no_resolver empty_value no_certificate : Bytes → TlsError E
  unknown_mode : Bytes → TlsError E
  not_resolved unreadable bad_pair : E → TlsError E

-- The errors of chainVerifier
pub data ChainError (E : Type 0) : Type 0 where
  none_presented : ChainError E
  unparsable untrusted : E → ChainError E

-- tls.Config, as far as the code sets it; RootCAs is none for the roots of the system.
pub record TlsConfig (P K E : Type 0) : Type 0 where
  pub min_version : ℕ
  pub certificates : List K
  pub insecure_skip_verify : Bool
  pub verify_peer_certificate : Option (List Bytes → Option (ChainError E))
  pub root_cas : Option P
  pub server_name : Bytes

-- The configuration that the code begins with, with tls.VersionTLS12.
abbrev pub new_config : {P K E : Type 0} → TlsConfig P K E
new_config = record {
  min_version = 0x0303;
  certificates = [];
  insecure_skip_verify = false;
  verify_peer_certificate = none;
  root_cas = none;
  server_name = [];
}

-- The settings of a connection, or empty ones.
abbrev pub settings_of : Option Tls → Tls
settings_of none = record { mode = []; ca = []; cert = []; key = []; server_name = [] }
settings_of (some t) = t

module _ {P K X E : Type 0} (src : Sources P K X E) where
  unfoldable pub resolved : Bytes → E ⊎ Bytes → TlsError E ⊎ Bytes
  resolved ref (inl err) = inl (not_resolved err)
  resolved ref (inr val) = if is_empty val then inl (empty_value ref) else inr val

  unfoldable pub secret_material : Bytes → Option (Bytes → E ⊎ Bytes) → TlsError E ⊎ Bytes
  unfolding resolved
  secret_material ref none = inl (no_resolver ref)
  secret_material ref (some resolve) = resolved ref (resolve ref)

  unfoldable pub file_material : E ⊎ Bytes → TlsError E ⊎ Bytes
  file_material (inl err) = inl (unreadable err)
  file_material (inr pem) = inr pem

  -- material
  unfoldable pub material : Bytes → TlsError E ⊎ Bytes
  unfolding secret_material file_material is_op_ref is_env_ref
  material ref =
      if is_op_ref ref || is_env_ref ref
      then secret_material ref src.resolver
      else file_material (src.read_file ref)

  unfoldable pub parsed_roots : Bytes → Option P → TlsError E ⊎ Option P
  parsed_roots ca none = inl (no_certificate ca)
  parsed_roots ca (some pool) = inr (some pool)

  unfoldable pub roots_from : Bytes → TlsError E ⊎ Bytes → TlsError E ⊎ Option P
  unfolding parsed_roots
  roots_from ca (inl err) = inl err
  roots_from ca (inr pem) = parsed_roots ca (src.parse_roots pem)

  -- rootPool
  unfoldable pub root_pool : Bytes → TlsError E ⊎ Option P
  unfolding roots_from material
  root_pool [] = inr none
  root_pool (c ∷ ca) = roots_from (c ∷ ca) (material (c ∷ ca))

  unfoldable pub paired : E ⊎ K → TlsError E ⊎ Option K
  paired (inl err) = inl (bad_pair err)
  paired (inr k) = inr (some k)

  unfoldable pub with_pair : TlsError E ⊎ Bytes → TlsError E ⊎ Bytes → TlsError E ⊎ Option K
  unfolding paired
  with_pair (inl err) key = inl err
  with_pair (inr cert) (inl err) = inl err
  with_pair (inr cert) (inr key) = paired (src.key_pair cert key)

  -- clientCertificate, or none without a certificate in the settings
  unfoldable pub client_certificate : Tls → TlsError E ⊎ Option K
  unfolding with_pair material
  client_certificate settings =
      if is_empty settings.cert
      then inr none
      else with_pair (material settings.cert) (material settings.key)

  -- The loop of chainVerifier
  unfoldable pub chained : E ⊎ X → E ⊎ List X → E ⊎ List X
  chained (inl err) rest = inl err
  chained (inr cert) (inl err) = inl err
  chained (inr cert) (inr certs) = inr (cert ∷ certs)

  unfoldable pub parse_chain : List Bytes → E ⊎ List X
  unfolding chained
  parse_chain [] = inr []
  parse_chain (raw ∷ raws) = chained (src.parse_certificate raw) (parse_chain raws)

  unfoldable pub verified : Option E → Option (ChainError E)
  verified none = none
  verified (some err) = some (untrusted err)

  unfoldable pub verify_parsed : Option P → E ⊎ List X → Option (ChainError E)
  unfolding verified
  verify_parsed roots (inl err) = some (unparsable err)
  verify_parsed roots (inr []) = some none_presented
  verify_parsed roots (inr (cert ∷ certs)) = verified (src.verify roots certs cert)

  -- chainVerifier
  unfoldable pub chain_verifier : Option P → List Bytes → Option (ChainError E)
  unfolding parse_chain verify_parsed
  chain_verifier roots [] = some none_presented
  chain_verifier roots (raw ∷ raws) = verify_parsed roots (parse_chain (raw ∷ raws))

  unfoldable pub with_roots :
      (Option P → TlsConfig P K E) → TlsError E ⊎ Option P → TlsError E ⊎ Option (TlsConfig P K E)
  with_roots cfg (inl err) = inl err
  with_roots cfg (inr roots) = inr (some (cfg roots))

  -- The switch over the modes.
  unfoldable pub by_mode :
      Bytes → Tls → Bytes → TlsConfig P K E → TlsError E ⊎ Option (TlsConfig P K E)
  unfolding with_roots root_pool chain_verifier equal
  by_mode mode settings host cfg =
      let name = if is_empty settings.server_name then host else settings.server_name in
      if equal mode tls_require
      then inr (some (record cfg { insecure_skip_verify = true }))
      else if equal mode (codes "verify-ca")
      then with_roots
          (λ roots. record cfg {
            insecure_skip_verify = true;
            verify_peer_certificate = some (chain_verifier roots);
          })
          (root_pool settings.ca)
      else if equal mode (codes "verify-full")
      then with_roots (λ roots. record cfg { root_cas = roots; server_name = name })
          (root_pool settings.ca)
      else inl (unknown_mode mode)

  abbrev pub own_pair : Option K → TlsConfig P K E
  own_pair none = new_config
  own_pair (some k) = record new_config { certificates = k ∷ [] }

  unfoldable pub with_certificate :
      Bytes → Tls → Bytes → TlsError E ⊎ Option K → TlsError E ⊎ Option (TlsConfig P K E)
  unfolding by_mode
  with_certificate mode settings host (inl err) = inl err
  with_certificate mode settings host (inr cert) = by_mode mode settings host (own_pair cert)

  -- tlsConfigFor; none is plaintext
  unfoldable pub tls_config_for : Connection → TlsError E ⊎ Option (TlsConfig P K E)
  unfolding with_certificate client_certificate effective_tls_mode equal
  tls_config_for conn =
      let settings = settings_of conn.tls in
      if equal (effective_tls_mode conn) tls_disable
      then inr none
      else with_certificate (effective_tls_mode conn) settings conn.host
          (client_certificate settings)
