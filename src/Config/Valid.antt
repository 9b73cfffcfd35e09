-- ===== src/Config/Valid.antt =====
-- What a configuration is once it is accepted.
pub mod Checks
pub mod Deployment
pub mod Checked
use d9s.Base.{
  ℕ, ◌⊎◌, inl, inr, ◌≡◌, ◌≢◌, ◌≤◌, refl, Bool, true, false, not, ◌&&◌, ◌||◌, sym, ap, ltb, equal,
  codes, List, [], ◌∷◌, Option, none, some, Bytes, equal_iff, arith, All, Bool-cases, if◌then◌else◌,
}
use d9s.Base.Int.{ℤ, pos, negsuc}
use d9s.Script.Token.{EngineType, postgres, clickhouse, redis, unknown, is_clickhouse}
use d9s.Config.Net.{AddrError, split_host_port, atoi}
use d9s.Config.Connection.{
  Ssh, Tls, Connection, protocol_http, protocol_native, redis_sentinel, redis_standalone,
  redis_cluster, redis_modes, tls_modes, tls_disable, is_empty, contains_text, is_unix_socket,
  tls_mode, effective_tls_mode, effective_redis_mode,
}
use d9s.Config.Validate.{
  fail_if, first_error, is_port, check_port, is_known, is_postgres, is_redis, check_number,
  check_parts, check_address, check_addresses, validate_redis, no_redis_fields,
  validate_engine_options, validate_tls_block, validate_tls, check_ssh, is_none, is_bad_timeout,
  connection_error,
}

-- A port that fits the 16 bits a driver takes, and is not 0.
pub record IsPort (p : ℤ) : Type 0 where
  pub number : ℕ
  pub is_number : p ≡ pos number
  pub positive : 1 ≤ number
  pub fits : number ≤ 65535

-- host:port, with a host and a port in range
abbrev pub IsAddress : Bytes → Type 0
IsAddress addr =
    (host : Bytes) × (port : Bytes) × (n : ℤ) × (split_host_port addr ≡ inr (host, port))
    × (host ≢ [])
    × (atoi port ≡ some n)
    × IsPort n

abbrev pub IsTunnel : Connection → Option Ssh → Type 0
IsTunnel c none = Unit
IsTunnel c (some s) = (s.bastion ≢ []) × (is_unix_socket c ≡ false) × IsPort s.port

-- No time limit is set, or one of a millisecond at least.
abbrev pub IsTimeout : ℤ → Type 0
IsTimeout t = (t ≡ pos 0) ⊎ ((n : ℕ) × (t ≡ pos n) × (1000000 ≤ n))

-- The mode is one of the four or left open, and a certificate has its key.
abbrev pub IsTlsBlock : Option Tls → Type 0
IsTlsBlock none = Unit
IsTlsBlock (some t) =
    ((t.mode ≡ [])
      ⊎ (t.mode ≡ codes "disable")
      ⊎ (t.mode ≡ codes "require")
      ⊎ (t.mode ≡ codes "verify-ca")
      ⊎ (t.mode ≡ codes "verify-full"))
    × (((t.cert ≡ []) × (t.key ≡ [])) ⊎ ((t.cert ≢ []) × (t.key ≢ [])))

-- What a Redis connection may say for each of its deployments.
abbrev pub IsDeployment : Connection → Type 0
IsDeployment c =
    (((c.mode ≡ []) ⊎ (c.mode ≡ codes "standalone")) × (c.master_name ≡ []) × (c.addresses ≡ []))
    ⊎ ((c.mode ≡ codes "cluster")
        × (c.master_name ≡ [])
        × ((c.database ≡ []) ⊎ (c.database ≡ codes "0")))
    ⊎ ((c.mode ≡ codes "sentinel") × (c.master_name ≢ []))

pub record IsValid (c : Connection) : Type 0 where
  pub has_name : c.name ≢ []
  pub known_engine : is_known c.engine ≡ true
  pub has_host : c.host ≢ []
  pub port_in_range : IsPort c.port
  pub tunnel : IsTunnel c c.ssh
  pub socket_engine : is_unix_socket c ≡ true → c.engine ≡ postgres
  pub socket_plain : is_unix_socket c ≡ true → effective_tls_mode c ≡ tls_disable
  pub protocol_known :
      (c.protocol ≡ [])
      ⊎ ((c.engine ≡ clickhouse) × ((c.protocol ≡ protocol_native) ⊎ (c.protocol ≡ protocol_http)))
  pub redis_fields :
      (c.engine ≡ redis) ⊎ ((c.mode ≡ []) × (c.master_name ≡ []) × (c.addresses ≡ []))
  pub sentinel_master :
      c.engine ≡ redis → (effective_redis_mode c ≡ redis_sentinel) → c.master_name ≢ []
  pub seeds : c.engine ≡ redis → All IsAddress c.addresses
  pub timeout : IsTimeout c.connect_timeout
  pub tls_block : IsTlsBlock c.tls
  pub deployment : c.engine ≡ redis → IsDeployment c
