-- ===== src/Config/Connection.antt =====
-- config.Connection with its blocks, and the methods that give the effective value of a setting. A
-- string type of the source, such as TLSMode, is its text here; a duration is in nanoseconds.
use d9s.Base.{
  zero, Bool, true, false, not, ◌&&◌, ◌||◌, List, [], ◌∷◌, Option, none, some, Bytes, codes, equal,
  has_prefix, has_suffix, ltb, length, if◌then◌else◌,
}
use d9s.Base.Int.{ℤ, pos, negsuc}
use d9s.Script.Token.{EngineType}

pub record Ssh : Type 0 where
  pub bastion : Bytes
  pub user : Bytes
  pub port : ℤ
  pub agent_socket : Bytes

pub record Tls : Type 0 where
  pub mode : Bytes
  pub ca : Bytes
  pub cert : Bytes
  pub key : Bytes
  pub server_name : Bytes

pub record Connection : Type 0 where
  pub name : Bytes
  pub engine : EngineType
  pub host : Bytes
  pub port : ℤ
  pub user : Bytes
  pub password : Bytes
  pub database : Bytes
  pub ssh : Option Ssh
  pub tls : Option Tls
  pub connect_timeout : ℤ
  pub result_cap : ℤ
  pub protocol : Bytes
  pub mode : Bytes
  pub master_name : Bytes
  pub addresses : List Bytes
  pub allow_write : Bool

-- the accepted values of the fields protocol, mode and tls.mode
abbrev pub protocol_native : Bytes
protocol_native = codes "native"

abbrev pub protocol_http : Bytes
protocol_http = codes "http"

abbrev pub protocols : List Bytes
protocols = protocol_native ∷ protocol_http ∷ []

abbrev pub redis_standalone : Bytes
redis_standalone = codes "standalone"

abbrev pub redis_cluster : Bytes
redis_cluster = codes "cluster"

abbrev pub redis_sentinel : Bytes
redis_sentinel = codes "sentinel"

abbrev pub redis_modes : List Bytes
redis_modes = redis_standalone ∷ redis_cluster ∷ redis_sentinel ∷ []

abbrev pub tls_disable : Bytes
tls_disable = codes "disable"

abbrev pub tls_require : Bytes
tls_require = codes "require"

abbrev pub tls_modes : List Bytes
tls_modes = tls_disable ∷ tls_require ∷ codes "verify-ca" ∷ codes "verify-full" ∷ []

-- v == ""
abbrev pub is_empty : Bytes → Bool
is_empty [] = true
is_empty (_ ∷ _) = false

-- slices.Contains
unfoldable pub contains_text : List Bytes → Bytes → Bool
contains_text [] v = false
contains_text (x ∷ xs) v = equal x v || contains_text xs v

-- IsUnixSocket
unfoldable pub is_unix_socket : Connection → Bool
is_unix_socket c = has_prefix c.host (codes "/")

abbrev pub is_some {ℓ} : {A : Type ℓ} → Option A → Bool
is_some none = false
is_some (some _) = true

abbrev pub tls_mode : Option Tls → Bytes
tls_mode none = []
tls_mode (some t) = t.mode

-- EffectiveTLSMode
unfoldable pub effective_tls_mode : Connection → Bytes
unfolding is_unix_socket
effective_tls_mode c =
    if not (is_empty (tls_mode c.tls))
    then tls_mode c.tls
    else if is_some c.ssh || is_unix_socket c
    then tls_disable
    else tls_require

-- DefaultConnectTimeout
abbrev pub default_connect_timeout : ℤ
default_connect_timeout = pos 10000000000

-- DefaultResultCap
abbrev pub default_result_cap : ℤ
default_result_cap = pos 10000

-- n > 0
abbrev pub is_positive : ℤ → Bool
is_positive (pos zero) = false
is_positive (pos _) = true
is_positive (negsuc _) = false

-- EffectiveConnectTimeout
unfoldable pub effective_connect_timeout : Connection → ℤ
effective_connect_timeout c =
    if is_positive c.connect_timeout then c.connect_timeout else default_connect_timeout

-- EffectiveResultCap
unfoldable pub effective_result_cap : Connection → ℤ
effective_result_cap c = if is_positive c.result_cap then c.result_cap else default_result_cap

-- EffectiveProtocol
unfoldable pub effective_protocol : Connection → Bytes
effective_protocol c = if not (is_empty c.protocol) then c.protocol else protocol_native

-- EffectiveRedisMode
unfoldable pub effective_redis_mode : Connection → Bytes
effective_redis_mode c = if not (is_empty c.mode) then c.mode else redis_standalone

-- IsOpRef
unfoldable pub is_op_ref : Bytes → Bool
is_op_ref v = has_prefix v (codes "op://")

-- IsEnvRef
unfoldable pub is_env_ref : Bytes → Bool
is_env_ref v = has_prefix v (codes "${") && has_suffix v (codes "}") && ltb 3 (length v)
