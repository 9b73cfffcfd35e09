-- ===== src/Mcp.antt =====
-- internal/mcp: the server that answers an agent. Redact scrubs secrets, Cut and Guard bound a
-- response, Table prints a result, Pool keeps the sessions that Opener connects, Listing has the tools that
-- list, and Query is the write gate.
pub mod Redact
pub mod Cut
pub mod Pool
pub mod Query
pub mod Table
pub mod Listing
pub mod Opener
