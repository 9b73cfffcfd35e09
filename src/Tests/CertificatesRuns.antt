-- ===== src/Tests/CertificatesRuns.antt =====
-- internal/db/tls.go on a concrete connection.
use d9s.Base.{Bool, true, List, Option, none, [], some, Bytes, codes, inl, inr}
use d9s.Certificates.{Sources, settings_of, tls_config_for}
use d9s.Certificates.Verified.{Promised, tls_config_for-Promised}
use d9s.Config.Connection.{Connection, effective_tls_mode}
use d9s.Tests.ConfigRuns.{prod}

-- Files that hold their own name, roots and pairs that are their text, and a resolver that fails.
abbrev sources : Sources Bytes Bytes Bytes Bytes
sources = record {
  resolver = some (λ ref. inl ref);
  read_file = λ name. inr name;
  parse_roots = λ pem. some pem;
  key_pair = λ cert key. inr cert;
  parse_certificate = λ raw. inr raw;
  verify = λ roots others cert. none;
}

abbrev checked_conn : Connection
checked_conn = record prod {
  tls = some (record {
    mode = codes "verify-full";
    ca = codes "ca.pem";
    cert = codes "me.pem";
    key = codes "me.key";
    server_name = [];
  });
}

abbrev any_name : Option Bytes → Bytes → List Bytes → Bool
any_name roots name raws = true

tls_config_for-Promised_example :
    Promised sources any_name
      (effective_tls_mode checked_conn)
      (settings_of checked_conn.tls)
      checked_conn.host
      (tls_config_for sources checked_conn)
tls_config_for-Promised_example = tls_config_for-Promised sources any_name checked_conn
