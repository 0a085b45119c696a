-- ===== src/Schema.antt =====
-- cmd/beyla-schema/main.go: the JSON schema of the configuration.
pub mod Tags
pub mod Scan
pub mod Nodes
pub mod Passes
pub mod EnvVars
pub mod Inline
pub mod Mapper
pub mod Roots
mod Tests
