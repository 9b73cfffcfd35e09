-- ===== src/Config/Validate.antt =====
-- Config.validate: the connections are checked in order, and the first problem is the error. A port
-- that is left open is filled in first, which no check before it reads.
use d9s.Base.{
  ℕ, zero, suc, ◌⊎◌, inl, inr, Bool, true, false, not, ◌&&◌, ◌||◌, List, [], ◌∷◌, ◌++◌, Option,
  none, some, Bytes, codes, equal, ltb, within, if◌then◌else◌,
}
use d9s.Base.Int.{ℤ, pos, negsuc}
use d9s.Script.Token.{EngineType, postgres, clickhouse, redis, unknown, is_clickhouse}
use d9s.Config.Net.{AddrError, split_host_port, atoi}
use d9s.Config.Connection.{
  Ssh, Tls, Connection, protocol_http, protocols, redis_standalone, redis_cluster, redis_sentinel,
  redis_modes, tls_disable, tls_modes, is_empty, contains_text, is_unix_socket, effective_tls_mode,
  effective_protocol, effective_redis_mode, is_op_ref, is_env_ref,
}

pub data ConfigError : Type 0 where
  missing_name : ℕ → ConfigError
  duplicate_name missing_host sentinel_without_master standalone_addresses : Bytes → ConfigError
  ssh_without_bastion cert_without_key : Bytes → ConfigError
  unknown_type socket_engine protocol_engine mode_engine : Bytes → EngineType → ConfigError
  master_engine addresses_engine : Bytes → EngineType → ConfigError
  unknown_protocol unknown_mode master_without_sentinel cluster_database :
      Bytes → Bytes → ConfigError
  address_without_host address_port unknown_tls_mode ssh_over_socket : Bytes → Bytes → ConfigError
  out_of_range : Bytes → Bytes → ℤ → ConfigError
  bad_address : Bytes → Bytes → AddrError → ConfigError
  bad_timeout : Bytes → ℤ → ConfigError
  tls_over_socket : Bytes → Bytes → Bytes → ConfigError

-- if test { return err }
unfoldable pub fail_if {ℓ} : {E : Type ℓ} → Bool → E → Option E
fail_if true e = some e
fail_if false e = none

-- Checks that return at the first error
unfoldable pub first_error {ℓ} : {E : Type ℓ} → List (Option E) → Option E
first_error [] = none
first_error (some e ∷ checks) = some e
first_error (none ∷ checks) = first_error checks

abbrev pub is_port : ℤ → Bool
is_port (pos n) = within 1 65535 n
is_port (negsuc _) = false

-- checkPort
unfoldable pub check_port : Bytes → Bytes → ℤ → Option ConfigError
check_port name field p = fail_if (not (is_port p)) (out_of_range name field p)

abbrev pub is_postgres : EngineType → Bool
is_postgres postgres = true
is_postgres _ = false

abbrev pub is_redis : EngineType → Bool
is_redis redis = true
is_redis _ = false

-- defaultPorts; 0 is the value of a key that the map lacks
unfoldable pub default_ports : EngineType → ℕ
default_ports postgres = 5432
default_ports clickhouse = 9000
default_ports redis = 6379
default_ports (unknown _) = 0

abbrev pub is_known : EngineType → Bool
is_known (unknown _) = false
is_known _ = true

-- defaultPort
unfoldable pub default_port : Connection → ℕ
unfolding default_ports is_clickhouse effective_tls_mode effective_protocol
default_port c =
    let secure = not (equal (effective_tls_mode c) tls_disable) in
    let http = equal (effective_protocol c) protocol_http in
    if not (is_clickhouse c.engine)
    then default_ports c.engine
    else if http && secure
    then 8443
    else if http
    then 8123
    else if secure
    then 9440
    else default_ports clickhouse

-- The number of a seed's port; `none` is the error of strconv.Atoi.
unfoldable pub check_number : Bytes → Bytes → Option ℤ → Option ConfigError
unfolding check_port
check_number name addr none = some (address_port name addr)
check_number name addr (some n) = check_port name (codes "address " ++ addr ++ codes " port") n

unfoldable pub check_parts : Bytes → Bytes → AddrError ⊎ (Bytes × Bytes) → Option ConfigError
unfolding atoi check_number
check_parts name addr (inl e) = some (bad_address name addr e)
check_parts name addr (inr (host, port)) = first_error (
    fail_if (is_empty host) (address_without_host name addr)
    ∷ check_number name addr (atoi port)
    ∷ [])

-- One seed of a Redis deployment: host:port
unfoldable pub check_address : Bytes → Bytes → Option ConfigError
unfolding split_host_port check_parts
check_address name addr = check_parts name addr (split_host_port addr)

unfoldable pub check_addresses : Bytes → List Bytes → Option ConfigError
unfolding check_address
check_addresses name [] = none
check_addresses name (addr ∷ addrs) =
    first_error (check_address name addr ∷ check_addresses name addrs ∷ [])

abbrev pub is_none {ℓ} : {A : Type ℓ} → List A → Bool
is_none [] = true
is_none (_ ∷ _) = false

-- validateRedis
unfoldable pub validate_redis : Connection → Option ConfigError
unfolding effective_redis_mode check_addresses contains_text
validate_redis c = first_error (
    fail_if (not (is_empty c.mode) && not (contains_text redis_modes c.mode))
      (unknown_mode c.name c.mode)
    ∷ fail_if (equal (effective_redis_mode c) redis_sentinel && is_empty c.master_name)
        (sentinel_without_master c.name)
    ∷ fail_if (not (equal (effective_redis_mode c) redis_sentinel) && not (is_empty c.master_name))
        (master_without_sentinel c.name (effective_redis_mode c))
    ∷ fail_if (equal (effective_redis_mode c) redis_standalone && not (is_none c.addresses))
        (standalone_addresses c.name)
    ∷ fail_if
        (equal (effective_redis_mode c) redis_cluster
          && not (is_empty c.database)
          && not (equal c.database (codes "0")))
        (cluster_database c.name c.database)
    ∷ check_addresses c.name c.addresses
    ∷ [])

-- The fields of Redis, on a connection of another engine.
unfoldable pub no_redis_fields : Connection → Option ConfigError
no_redis_fields c = first_error (
    fail_if (not (is_empty c.mode)) (mode_engine c.name c.engine)
    ∷ fail_if (not (is_empty c.master_name)) (master_engine c.name c.engine)
    ∷ fail_if (not (is_none c.addresses)) (addresses_engine c.name c.engine)
    ∷ [])

-- validateEngineOptions
unfoldable pub validate_engine_options : Connection → Option ConfigError
unfolding validate_redis no_redis_fields is_unix_socket is_clickhouse contains_text
validate_engine_options c = first_error (
    fail_if (is_unix_socket c && not (is_postgres c.engine)) (socket_engine c.name c.engine)
    ∷ fail_if (not (is_empty c.protocol) && not (is_clickhouse c.engine))
        (protocol_engine c.name c.engine)
    ∷ fail_if (not (is_empty c.protocol) && not (contains_text protocols c.protocol))
        (unknown_protocol c.name c.protocol)
    ∷ (if is_redis c.engine then validate_redis c else no_redis_fields c)
    ∷ [])

-- validateTLS
unfoldable pub validate_tls_block : Connection → Option Tls → Option ConfigError
unfolding is_unix_socket contains_text
validate_tls_block c none = none
validate_tls_block c (some t) = first_error (
    fail_if (not (is_empty t.mode) && not (contains_text tls_modes t.mode))
      (unknown_tls_mode c.name t.mode)
    ∷ fail_if (is_empty t.cert && not (is_empty t.key) || not (is_empty t.cert) && is_empty t.key)
        (cert_without_key c.name)
    ∷ fail_if (is_unix_socket c && not (is_empty t.mode) && not (equal t.mode tls_disable))
        (tls_over_socket c.name t.mode c.host)
    ∷ [])

unfoldable pub validate_tls : Connection → Option ConfigError
unfolding validate_tls_block
validate_tls c = validate_tls_block c c.tls

unfoldable pub check_ssh : Connection → Option Ssh → Option ConfigError
unfolding is_unix_socket check_port
check_ssh c none = none
check_ssh c (some s) = first_error (
    fail_if (is_empty s.bastion) (ssh_without_bastion c.name)
    ∷ fail_if (is_unix_socket c) (ssh_over_socket c.name c.host)
    ∷ check_port c.name (codes "ssh port") s.port
    ∷ [])

-- Below a millisecond, but not zero.
abbrev pub is_bad_timeout : ℤ → Bool
is_bad_timeout (pos n) = ltb 0 n && ltb n 1000000
is_bad_timeout (negsuc _) = true

abbrev pub or_port : ℤ → ℕ → ℤ
or_port (pos zero) n = pos n
or_port p n = p

abbrev pub with_ssh_port : Option Ssh → Option Ssh
with_ssh_port none = none
with_ssh_port (some s) = some (record s { port = or_port s.port 22 })

-- The assignments of validate: the default ports.
unfoldable pub with_ports : Connection → Connection
unfolding default_port
with_ports c = record c { port = or_port c.port (default_port c); ssh = with_ssh_port c.ssh }

-- The checks of the `i`-th connection, its ports filled in; `seen` are the names before it.
unfoldable pub connection_error : ℕ → List Bytes → Connection → Option ConfigError
unfolding check_port validate_engine_options validate_tls check_ssh contains_text
connection_error i seen c = first_error (
    fail_if (is_empty c.name) (missing_name (suc i))
    ∷ fail_if (contains_text seen c.name) (duplicate_name c.name)
    ∷ fail_if (not (is_known c.engine)) (unknown_type c.name c.engine)
    ∷ fail_if (is_empty c.host) (missing_host c.name)
    ∷ check_port c.name (codes "port") c.port
    ∷ validate_engine_options c
    ∷ fail_if (is_bad_timeout c.connect_timeout) (bad_timeout c.name c.connect_timeout)
    ∷ check_ssh c c.ssh
    ∷ validate_tls c
    ∷ [])

-- The password is a literal: a warning names the connection.
unfoldable pub is_plaintext : Connection → Bool
unfolding is_op_ref is_env_ref
is_plaintext c =
    not (is_empty c.password) && not (is_op_ref c.password) && not (is_env_ref c.password)

abbrev pub Checked : Type 0
Checked = ConfigError ⊎ (List Connection × List Bytes)

unfoldable pub with_warning : Connection → List Bytes → List Bytes
unfolding is_plaintext
with_warning c warned = if is_plaintext c then c.name ∷ warned else warned

unfoldable pub prepend : Connection → Checked → Checked
unfolding with_warning
prepend c (inl e) = inl e
prepend c (inr (cs, warned)) = inr (c ∷ cs, with_warning c warned)

unfoldable pub checked : Option ConfigError → Connection → Checked → Checked
unfolding prepend
checked (some e) c rest = inl e
checked none c rest = prepend c rest

-- validate, from the `i`-th connection on: the connections as they are left, and the names of those
-- that a warning is about.
unfoldable pub validate_from : ℕ → List Bytes → List Connection → Checked
validate_from i seen [] = inr ([], [])
validate_from i seen (c ∷ cs) =
    checked (connection_error i seen (with_ports c)) (with_ports c)
      (validate_from (suc i) (c.name ∷ seen) cs)

unfoldable pub validate : List Connection → Checked
unfolding validate_from checked connection_error with_ports
validate cs = validate_from 0 [] cs
