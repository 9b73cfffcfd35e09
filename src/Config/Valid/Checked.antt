-- ===== src/Config/Valid/Checked.antt =====
-- All checks of a connection together.
use d9s.Base.{ℕ, ◌≡◌, false, List, none, Bytes}
use d9s.Config.Connection.{Connection, contains_text}
use d9s.Config.Validate.{validate_tls, connection_error}
use d9s.Config.Valid.{IsValid}
use d9s.Config.Valid.Checks.{
  fail_if-none, first_error-none, check_port-IsPort, not_empty, check_ssh-IsTunnel,
  tls_over_socket_mode, protocol_cases, socket_is_postgres, engine_fields, redis_seeds,
  redis_master, socket_mode, not-false, redis_or_empty, redis_checked,
}
use d9s.Config.Valid.Deployment.{
  is_bad_timeout-IsTimeout, validate_tls_block-IsTlsBlock, validate_redis-IsDeployment,
}

-- The checks of one connection are enough for it to be valid.
pub connection_error-IsValid :
    (i : ℕ) (seen : List Bytes) (c : Connection)
    → connection_error i seen c ≡ none
    → IsValid c × (contains_text seen c.name ≡ false)
unfolding connection_error
connection_error-IsValid i seen c h =
    let p = first_error-none _ h in
    let options = p.1.1.1.1.1.0 in
    let tls_ok = p.1.1.1.1.1.1.1.1.0 in
    let fields = engine_fields c options in
    (
      record {
        has_name = not_empty c.name (fail_if-none _ _ p.0);
        known_engine = not-false _ (fail_if-none _ _ p.1.1.0);
        has_host = not_empty c.host (fail_if-none _ _ p.1.1.1.0);
        port_in_range = check_port-IsPort c.name _ c.port p.1.1.1.1.0;
        tunnel = check_ssh-IsTunnel c c.ssh p.1.1.1.1.1.1.1.0;
        socket_engine = socket_is_postgres c options;
        socket_plain =
            λ u. socket_mode c (tls_over_socket_mode c c.tls (unfold validate_tls in tls_ok) u) u;
        protocol_known = protocol_cases c options;
        redis_fields = redis_or_empty c fields;
        sentinel_master = λ e m. redis_master c (redis_checked c fields e) m;
        seeds = λ e. redis_seeds c (redis_checked c fields e);
        timeout = is_bad_timeout-IsTimeout c.connect_timeout (fail_if-none _ _ p.1.1.1.1.1.1.0);
        tls_block = validate_tls_block-IsTlsBlock c c.tls (unfold validate_tls in tls_ok);
        deployment = λ e. validate_redis-IsDeployment c (redis_checked c fields e);
      },
      fail_if-none _ _ p.1.0,
    )
