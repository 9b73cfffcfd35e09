-- ===== src/Config/Valid/Checks.antt =====
-- What each check of a connection leaves: ports, addresses, SSH, sockets and the fields of an engine.
use d9s.Base.{
  ◌⊎◌, inl, inr, ◌≡◌, ◌≢◌, refl, Bool, true, false, not, List, [], ◌∷◌, Option, none, some, Bytes,
  equal_iff, arith, All, Bool-cases, if◌then◌else◌,
}
use d9s.Base.Int.{ℤ, pos, negsuc}
use d9s.Script.Token.{EngineType, postgres, clickhouse, redis, unknown, is_clickhouse}
use d9s.Config.Net.{AddrError, split_host_port, atoi}
use d9s.Config.Connection.{
  Ssh, Tls, Connection, protocol_http, protocol_native, redis_sentinel, tls_disable, is_empty,
  contains_text, is_unix_socket, tls_mode, effective_tls_mode, effective_redis_mode,
}
use d9s.Config.Validate.{
  fail_if, first_error, is_port, check_port, is_postgres, is_redis, check_number, check_parts,
  check_address, check_addresses, validate_redis, no_redis_fields, validate_engine_options,
  validate_tls_block, check_ssh, is_none,
}
use d9s.Config.Valid.{IsPort, IsAddress, IsTunnel}

pub is_port-IsPort : (p : ℤ) → not (is_port p) ≡ false → IsPort p
is_port-IsPort (pos n) h = record {
  number = n;
  is_number = refl;
  positive = ground arith;
  fits = ground arith;
}
is_port-IsPort (negsuc n) h = cc

pub fail_if-none : {E : Type 0} (b : Bool) (e : E) → fail_if b e ≡ none → b ≡ false
unfolding fail_if
fail_if-none true e h = cc
fail_if-none false e h = refl

pub first_error-none :
    {E : Type 0} (xs : List (Option E)) → first_error xs ≡ none → All (λ o. o ≡ none) xs
unfolding first_error
first_error-none [] h = tt
first_error-none (some e ∷ xs) h = cc
first_error-none (none ∷ xs) h = (refl, first_error-none xs h)

pub check_port-IsPort : (name field : Bytes) (p : ℤ) → check_port name field p ≡ none → IsPort p
unfolding check_port
check_port-IsPort name field p h = is_port-IsPort p (fail_if-none _ _ h)

pub not_empty : (v : Bytes) → is_empty v ≡ false → v ≢ []
not_empty [] h = cc
not_empty (c ∷ v) h = cc

pub empty_nil : (v : Bytes) → not (is_empty v) ≡ false → v ≡ []
empty_nil [] h = refl
empty_nil (c ∷ v) h = cc

pub check_number-IsPort :
    (name addr : Bytes) (o : Option ℤ)
    → check_number name addr o ≡ none
    → (n : ℤ) × (o ≡ some n) × IsPort n
unfolding check_number
check_number-IsPort name addr none h = cc
check_number-IsPort name addr (some n) h = (n, refl, check_port-IsPort name _ n h)

pub check_parts_address :
    (name addr : Bytes) (r : AddrError ⊎ (Bytes × Bytes))
    → check_parts name addr r ≡ none
    → (host : Bytes) × (port : Bytes) × (n : ℤ) × (r ≡ inr (host, port))
      × (host ≢ [])
      × (atoi port ≡ some n)
      × IsPort n
unfolding check_parts
check_parts_address name addr (inl e) h = cc
check_parts_address name addr (inr (host, port)) h =
    let parts = first_error-none _ h in
    let number = check_number-IsPort name addr (atoi port) parts.1.0 in
    (host, port, number.0, refl, not_empty host (fail_if-none _ _ parts.0), number.1, number.2)

pub check_address-IsAddress : (name addr : Bytes) → check_address name addr ≡ none → IsAddress addr
unfolding check_address
check_address-IsAddress name addr h = check_parts_address name addr (split_host_port addr) h

pub check_addresses-All :
    (name : Bytes) (addrs : List Bytes) → check_addresses name addrs ≡ none → All IsAddress addrs
unfolding check_addresses
check_addresses-All name [] h = tt
check_addresses-All name (addr ∷ addrs) h =
    let parts = first_error-none _ h in
    (check_address-IsAddress name addr parts.0, check_addresses-All name addrs parts.1.0)

pub check_ssh-IsTunnel : (c : Connection) (o : Option Ssh) → check_ssh c o ≡ none → IsTunnel c o
unfolding check_ssh
check_ssh-IsTunnel c none h = tt
check_ssh-IsTunnel c (some s) h =
    let parts = first_error-none _ h in
    (
      not_empty s.bastion (fail_if-none _ _ parts.0),
      fail_if-none _ _ parts.1.0,
      check_port-IsPort c.name _ s.port parts.1.1.0,
    )

pub contains_two : (a b v : Bytes) → contains_text (a ∷ b ∷ []) v ≡ true → (v ≡ a) ⊎ (v ≡ b)
unfolding contains_text
contains_two a b v h = ground (arith, equal_iff a v, equal_iff b v)

pub tls_over_socket_mode :
    (c : Connection) (o : Option Tls)
    → validate_tls_block c o ≡ none
    → is_unix_socket c ≡ true
    → (tls_mode o ≡ []) ⊎ (tls_mode o ≡ tls_disable)
unfolding validate_tls_block
tls_over_socket_mode c none h u = inl refl
tls_over_socket_mode c (some t) h u =
    let parts = first_error-none _ h in
    let third = fail_if-none _ _ parts.1.1.0 in
    elim (Bool-cases (is_empty t.mode)) [
      | inl e ↦ inl (empty_nil t.mode (rw e))
      | inr e ↦ inr ((equal_iff t.mode tls_disable).0 ground arith)
    ]

pub clickhouse_is : (e : EngineType) → is_clickhouse e ≡ true → e ≡ clickhouse
unfolding is_clickhouse
clickhouse_is clickhouse h = refl
clickhouse_is postgres h = cc
clickhouse_is redis h = cc
clickhouse_is (unknown x) h = cc

pub postgres_is : (e : EngineType) → is_postgres e ≡ true → e ≡ postgres
postgres_is postgres h = refl
postgres_is clickhouse h = cc
postgres_is redis h = cc
postgres_is (unknown x) h = cc

pub protocol_cases :
    (c : Connection)
    → validate_engine_options c ≡ none
    → (c.protocol ≡ [])
      ⊎ ((c.engine ≡ clickhouse) × ((c.protocol ≡ protocol_native) ⊎ (c.protocol ≡ protocol_http)))
unfolding validate_engine_options
protocol_cases c h =
    let parts = first_error-none _ h in
    let engine = fail_if-none _ _ parts.1.0 in
    let known = fail_if-none _ _ parts.1.1.0 in
    elim (Bool-cases (is_empty c.protocol)) [
      | inl e ↦ inl (empty_nil c.protocol (rw e))
      | inr e ↦ inr (
        clickhouse_is c.engine (ground arith),
        contains_two protocol_native protocol_http c.protocol (ground arith),
      )
    ]

pub socket_is_postgres :
    (c : Connection)
    → validate_engine_options c ≡ none
    → is_unix_socket c ≡ true
    → c.engine ≡ postgres
unfolding validate_engine_options
socket_is_postgres c h u =
    let parts = first_error-none _ h in
    let first = fail_if-none _ _ parts.0 in postgres_is c.engine (ground arith)

pub not_empty_list : {A : Type 0} (xs : List A) → not (is_none xs) ≡ false → xs ≡ []
not_empty_list [] h = refl
not_empty_list (x ∷ xs) h = cc

pub no_redis_fields_empty :
    (c : Connection)
    → no_redis_fields c ≡ none
    → (c.mode ≡ []) × (c.master_name ≡ []) × (c.addresses ≡ [])
unfolding no_redis_fields
no_redis_fields_empty c h =
    let parts = first_error-none _ h in
    (
      empty_nil c.mode (fail_if-none _ _ parts.0),
      empty_nil c.master_name (fail_if-none _ _ parts.1.0),
      not_empty_list c.addresses (fail_if-none _ _ parts.1.1.0),
    )

abbrev pub EngineFields : Connection → Type 0
EngineFields c =
    ((c.engine ≡ redis) × (validate_redis c ≡ none))
    ⊎ ((c.engine ≢ redis) × (no_redis_fields c ≡ none))

pub by_engine :
    (c : Connection) (e : EngineType)
    → (if is_redis e then validate_redis c else no_redis_fields c) ≡ none
    → ((e ≡ redis) × (validate_redis c ≡ none)) ⊎ ((e ≢ redis) × (no_redis_fields c ≡ none))
by_engine c redis h = inl (refl, h)
by_engine c postgres h = inr (λ e. cc, h)
by_engine c clickhouse h = inr (λ e. cc, h)
by_engine c (unknown x) h = inr (λ e. cc, h)

pub engine_fields : (c : Connection) → validate_engine_options c ≡ none → EngineFields c
unfolding validate_engine_options
engine_fields c h = let parts = first_error-none _ h in by_engine c c.engine parts.1.1.1.0

pub redis_seeds : (c : Connection) → validate_redis c ≡ none → All IsAddress c.addresses
unfolding validate_redis
redis_seeds c h =
    let parts = first_error-none _ h in check_addresses-All c.name c.addresses parts.1.1.1.1.1.0

pub redis_master :
    (c : Connection)
    → validate_redis c ≡ none
    → effective_redis_mode c ≡ redis_sentinel
    → c.master_name ≢ []
unfolding validate_redis
redis_master c h e =
    let parts = first_error-none _ h in
    let second = fail_if-none _ _ parts.1.0 in
    not_empty c.master_name
      (ground (arith, (equal_iff (effective_redis_mode c) redis_sentinel).1 e))

-- A socket host, on the mode that its block names.
pub socket_mode :
    (c : Connection)
    → (tls_mode c.tls ≡ []) ⊎ (tls_mode c.tls ≡ tls_disable)
    → is_unix_socket c ≡ true
    → effective_tls_mode c ≡ tls_disable
unfolding effective_tls_mode
socket_mode c (inl e) u = rw (e, u) (ground arith)
socket_mode c (inr e) u = rw e refl

pub not-false : (b : Bool) → not b ≡ false → b ≡ true
not-false true h = refl
not-false false h = cc

pub redis_or_empty :
    (c : Connection)
    → EngineFields c
    → (c.engine ≡ redis) ⊎ ((c.mode ≡ []) × (c.master_name ≡ []) × (c.addresses ≡ []))
redis_or_empty c (inl (e, ok)) = inl e
redis_or_empty c (inr (e, ok)) = inr (no_redis_fields_empty c ok)

pub redis_checked : (c : Connection) → EngineFields c → c.engine ≡ redis → validate_redis c ≡ none
redis_checked c (inl (e, ok)) r = ok
redis_checked c (inr (e, ok)) r = absurd (e r)
