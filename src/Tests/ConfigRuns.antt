-- ===== src/Tests/ConfigRuns.antt =====
-- internal/config on a concrete file.
use d9s.Base.{
  ◌≡◌, inr, refl, [], ◌∷◌, none, some, false, codes, has_prefix, equal, index_byte, contains_byte,
}
use d9s.Base.Int.{pos}
use d9s.Script.Token.{postgres, redis}
use d9s.Config.Connection.{Ssh, Connection}
use d9s.Config.Validate.{validate, first_error, fail_if}
use d9s.Config.Accepted.{Accepted, validate-Accepted, validate-validate}

abbrev bastion : Ssh
bastion = record { bastion = codes "b.corp"; user = []; port = pos 0; agent_socket = [] }

abbrev pub prod : Connection
prod = record {
  name = codes "prod-pg";
  engine = postgres;
  host = codes "10.0.1.5";
  port = pos 0;
  user = codes "app";
  password = codes "hunter2";
  database = [];
  ssh = some bastion;
  tls = none;
  connect_timeout = pos 0;
  result_cap = pos 0;
  protocol = [];
  mode = [];
  master_name = [];
  addresses = [];
  allow_write = false;
}

abbrev cache : Connection
cache = record prod {
  name = codes "cache";
  engine = redis;
  port = pos 6380;
  password = codes "op://v/i/f";
  ssh = none;
  mode = codes "cluster";
  addresses = codes "[::1]:6379" ∷ codes "h:65535" ∷ [];
}

abbrev filled : Connection
filled = record prod { port = pos 5432; ssh = some (record bastion { port = pos 22 }) }

two_pass : validate (prod ∷ cache ∷ []) ≡ inr (filled ∷ cache ∷ [], codes "prod-pg" ∷ [])
unfolding validate first_error fail_if has_prefix equal index_byte contains_byte
two_pass = refl

validate-Accepted_example :
    Accepted [] (prod ∷ cache ∷ []) (filled ∷ cache ∷ []) (codes "prod-pg" ∷ [])
validate-Accepted_example =
    validate-Accepted (prod ∷ cache ∷ []) (filled ∷ cache ∷ []) (codes "prod-pg" ∷ []) two_pass

validate-validate_example :
    validate (filled ∷ cache ∷ []) ≡ inr (filled ∷ cache ∷ [], codes "prod-pg" ∷ [])
validate-validate_example =
    validate-validate (prod ∷ cache ∷ []) (filled ∷ cache ∷ []) (codes "prod-pg" ∷ []) two_pass
