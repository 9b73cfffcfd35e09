-- ===== src/Tests.antt =====
-- Instances of the properties at concrete inputs, and runs of the definitions.
mod ScriptRuns
mod ConfigRuns
mod CursorRuns
mod HistoryRuns
mod McpRuns
mod MetaRuns
mod PoolRuns
mod QualifyRuns
mod SchemaRuns
mod SessionRuns
mod EditorRuns
mod GridRuns
mod SnippetsRuns
mod TunnelRuns
mod CertificatesRuns
mod ListingRuns
