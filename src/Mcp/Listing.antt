-- ===== src/Mcp/Listing.antt =====
-- internal/mcp/tools.go: the tools that list, and what they show of a connection.
pub mod Withheld
use d9s.Base.{
  ℕ, zero, suc, Bool, true, false, not, ◌&&◌, ◌||◌, List, [], ◌∷◌, ◌++◌, Option, none, some, Bytes,
  codes, ◌==◌, if◌then◌else◌, ◌⊎◌, inl, inr, equal, trim_space,
}
use d9s.Base.Int.{itoa}
use d9s.Config.Connection.{
  Ssh, Connection, is_unix_socket, is_op_ref, is_env_ref, effective_tls_mode,
}
use d9s.Mcp.Table.{grid}
use d9s.Script.Split.{split_lines}
use d9s.Script.Token.{EngineType, postgres, clickhouse, redis, unknown}
use d9s.Tunnel.Host.{join_host_port}

-- string(conn.Type)
unfoldable pub engine_text : EngineType → Bytes
engine_text postgres = codes "postgres"
engine_text clickhouse = codes "clickhouse"
engine_text redis = codes "redis"
engine_text (unknown w) = w

-- endpoint
unfoldable pub endpoint : Connection → Bytes
unfolding is_unix_socket join_host_port itoa
endpoint conn = if is_unix_socket conn then conn.host else join_host_port conn.host (itoa conn.port)

-- sshLabel
unfoldable pub ssh_label : Option Ssh → Bytes
ssh_label none = codes "-"
ssh_label (some ssh) = codes "via " ++ ssh.bastion

-- passwordRef
unfoldable pub password_ref : Bytes → Bytes
unfolding is_op_ref is_env_ref equal
password_ref password =
    if equal password []
    then codes "none"
    else if is_op_ref password || is_env_ref password
    then password
    else codes "(literal in config; withheld)"

-- orDash
unfoldable pub or_dash : Bytes → Bytes
or_dash [] = codes "-"
or_dash (c ∷ v) = c ∷ v

-- The row of a connection in listConnections.
unfoldable pub connection_row : Bool → Connection → List Bytes
unfolding endpoint or_dash ssh_label effective_tls_mode password_ref engine_text
connection_row allow_write conn =
    conn.name
    ∷ engine_text conn.engine
    ∷ endpoint conn
    ∷ or_dash conn.database
    ∷ ssh_label conn.ssh
    ∷ effective_tls_mode conn
    ∷ password_ref conn.password
    ∷ (if allow_write && conn.allow_write then codes "allowed" else codes "read-only")
    ∷ []

unfoldable pub connection_rows : Bool → List Connection → List (List Bytes)
unfolding connection_row
connection_rows allow_write [] = []
connection_rows allow_write (conn ∷ conns) =
    connection_row allow_write conn ∷ connection_rows allow_write conns

-- writeGateNote
unfoldable pub write_gate_note : Bool → Bytes
write_gate_note true =
    codes
      "Writes need --allow-write (given) and allow_write: true on the connection; connections marked read-only above lack the second.\n"
write_gate_note false =
    codes
      "All connections are read-only: this server was started without --allow-write, so destructive statements are refused whatever a connection configures.\n"

abbrev pub connection_columns : List Bytes
connection_columns =
    codes "NAME"
    ∷ codes "ENGINE"
    ∷ codes "ADDRESS"
    ∷ codes "DATABASE"
    ∷ codes "SSH"
    ∷ codes "TLS"
    ∷ codes "PASSWORD"
    ∷ codes "WRITES"
    ∷ []

-- listConnections
unfoldable pub list_connections : Bool → List Connection → Bytes
unfolding connection_rows grid write_gate_note
list_connections allow_write [] =
    codes
      "No connections are configured. Add one to the d9s config file, or check the --connections allowlist this server was started with."
list_connections allow_write (conn ∷ conns) =
    grid connection_columns (connection_rows allow_write (conn ∷ conns))
    ++ codes "\n"
    ++ write_gate_note allow_write

-- db.Column
pub record Column : Type 0 where
  pub name : Bytes
  pub kind : Bytes
  pub nullable : Bool
  pub detail : Bytes

-- What the other tools fail with.
pub data ListError (E : Type 0) : Type 0 where
  empty_table : ListError E
  no_session : E → ListError E
  not_listed : E → ListError E

unfoldable pub pair_rows : List (Bytes × Bytes) → List (List Bytes)
pair_rows [] = []
pair_rows (p ∷ ps) = (p.0 ∷ p.1 ∷ []) ∷ pair_rows ps

unfoldable pub column_rows : List Column → List (List Bytes)
column_rows [] = []
column_rows (c ∷ cs) =
    (c.name ∷ c.kind ∷ (if c.nullable then codes "null" else codes "not null") ∷ c.detail ∷ [])
    ∷ column_rows cs

module _ {E : Type 0} where
  unfoldable pub listed : E ⊎ List (Bytes × Bytes) → ListError E ⊎ Bytes
  unfolding grid pair_rows
  listed (inl err) = inl (not_listed err)
  listed (inr pairs) = inr (grid (codes "NAME" ∷ codes "DETAIL" ∷ []) (pair_rows pairs))

  unfoldable pub described : E ⊎ List Column → ListError E ⊎ Bytes
  unfolding grid column_rows
  described (inl err) = inl (not_listed err)
  described (inr cols) = inr (
      grid (codes "NAME" ∷ codes "TYPE" ∷ codes "NULLABLE" ∷ codes "DETAIL" ∷ [])
        (column_rows cols))

  module _ {D : Type 0} (session : Bytes → Bytes → E ⊎ D) where
    unfoldable pub on_session : E ⊎ D → (D → ListError E ⊎ Bytes) → ListError E ⊎ Bytes
    on_session (inl err) use_it = inl (no_session err)
    on_session (inr d) use_it = use_it d

    -- listDatabases
    unfoldable pub list_databases : (D → E ⊎ List (Bytes × Bytes)) → Bytes → ListError E ⊎ Bytes
    unfolding on_session listed
    list_databases databases connection =
        on_session (session connection []) (λ d. listed (databases d))

    -- listTables
    unfoldable pub list_tables :
        (D → E ⊎ List (Bytes × Bytes)) → Bytes → Bytes → ListError E ⊎ Bytes
    unfolding on_session listed
    list_tables tables connection database =
        on_session (session connection database) (λ d. listed (tables d))

    -- describeTable
    unfoldable pub describe_table :
        (D → Bytes → E ⊎ List Column) → Bytes → Bytes → Bytes → ListError E ⊎ Bytes
    unfolding on_session described trim_space equal
    describe_table columns connection database table =
        let found = on_session (session connection database) (λ d. described (columns d table)) in
        if equal (trim_space table) [] then inl empty_table else found

-- The parts of a text between its commas.
unfoldable pub comma_parts : Bytes → Bytes → List Bytes
comma_parts [] part = part ∷ []
comma_parts (c ∷ s) part =
    let ended = part ∷ comma_parts s [] in
    let longer = comma_parts s (part ++ c ∷ []) in if c == b',' then ended else longer

unfoldable pub named_parts : List Bytes → List Bytes
unfolding trim_space equal
named_parts [] = []
named_parts (p ∷ ps) =
    let rest = named_parts ps in if equal (trim_space p) [] then rest else trim_space p ∷ rest

-- splitList
unfoldable pub split_list : Bytes → List Bytes
unfolding comma_parts named_parts
split_list v = named_parts (comma_parts v [])
