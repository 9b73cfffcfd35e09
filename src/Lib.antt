-- ===== src/Lib.antt =====
-- A model of d9s, a terminal interface to PostgreSQL, ClickHouse and Redis with a server for agents.
--
-- The parts and their files:
--   * Script models internal/db/split.go: the lexer (Lexer: sqlConsume), the tokenizers (Tokens:
--     Tokenize), the splitter (Split) and the check for destructive statements (Destructive).
--   * Qualify models internal/db/qualify.go: qualify and splitQualified.
--   * Cursor models internal/db/cursor.go: NextPage, Close, SetCap, Cancel and executeViaCursor, over any
--     source of rows, which is a record of its three functions.
--   * Config models internal/config/config.go: the connections with their defaults (Connection) and
--     validate with its checks (Validate), and of the packages net and strconv what they call (Net).
--   * Schema models internal/schema/cache.go: the cache of names that completion reads, its claims, and
--     the loads that are in flight.
--   * History models internal/history/history.go: Append, Load and Filter on the bytes of the file.
--   * Meta models internal/meta/meta.go: the backslash commands, and the suggestion for a typo.
--   * Session models internal/session/session.go: OpenTunnel, Close and Find, over a record of what the
--     resolver, the driver and the tunnel answer.
--   * Mcp models internal/mcp: the redactor (Redact: redact.go), the byte caps (Cut: format.go and
--     server.go), the pool of sessions (Pool: session.go) with the connector that dials (Opener), the text
--     table (Table: format.go), the tools that list (Listing: tools.go) and the tool query with its write
--     gate (Query: tools.go and server.go). The gate reads scripts through Script: split and destructive.
--   * Secrets models internal/secrets: Resolve with its cache and Validate (secrets.go), and the reference
--     of a field (Reference: onepassword.go). Picker models internal/ui/picker.go, which chooses one.
--   * Certificates models internal/db/tls.go: the TLS configuration of a connection. Progress models
--     internal/db/progress.go: the totals of a running statement.
--   * Tunnel models internal/sshtunnel: the states of a tunnel (Dial, Close and monitor of tunnel.go) and
--     where it connects (Host: connect, and lookupHost of sshconfig.go), over what the machine answers.
--   * Snippets models internal/snippets/snippets.go: Load, Save, Delete and the filters of saved queries.
--   * Editor models internal/ui/highlight.go: the statement around the cursor, the coloured spans and the
--     rows of the query editor. It reads the tokens of Script.
--   * Complete models internal/ui/complete.go: what the cursor expects (completionRequestAt), the
--     candidates from the cache of Schema and their order (Candidates), and the popup with its keys
--     (Popup); Quote holds the names and templates of internal/ui/schema.go that it inserts.
--   * Grid models internal/ui/grid.go: the filter and the order of the rows, the selected cell with its
--     keys (Keys), and the columns on screen (Visible). The parser and the order of numbers are
--     parameters.
--   * Base holds what the parts share: the functions of Go's package strings that the program calls,
--     lists measured by native numbers, and Boolean tests. Tests holds runs at concrete inputs.
--
-- How the code is read. A Go string is the list of its bytes. A position in a text becomes the rest of
-- the text from there on, next to the number of the position where the code stores it. A loop over a text
-- recurs on fuel that starts as the number of bytes or tokens left; every round uses up one at
-- least, so it is enough, and the theorems on whole texts are about the function that supplies it.
-- strings.ToLower and strings.ToUpper map ASCII bytes and keep every other byte: at the keywords that
-- they are compared with this differs from Go for the letters U+0131, U+017F and U+212A alone, and
-- names in other letters, which Go folds too, are compared as they are.
-- strings.TrimSpace knows the blanks of Unicode, strings.Fields those of ASCII. Errors are
-- values. A mutex makes an operation one step, so what runs at once is a sequence of operations in any
-- order.
--
-- An insertion sort stands for the sorts of the library, whose results it has. Where the code keeps a
-- number of rows or columns that is never negative, it is a natural number.
--
-- Not modelled: the drawing of the screens and the screens beside the editor, its completion, the grid and
-- the picker (internal/ui), the command line (internal/cli, cmd/d9s), the drivers and the network
-- (internal/db), and the op command with the kinds of its failures (internal/secrets), which are input and
-- output around these parts; the YAML decoder and the protocol library, which are other projects; and
-- the writer of the configuration (internal/config/write.go).
pub mod Base
pub mod Certificates
pub mod Script
pub mod Complete
pub mod Config
pub mod Cursor
pub mod Editor
pub mod Grid
pub mod History
pub mod Mcp
pub mod Meta
pub mod Picker
pub mod Progress
pub mod Qualify
pub mod Schema
pub mod Secrets
pub mod Session
pub mod Snippets
pub mod Tunnel
mod Tests
