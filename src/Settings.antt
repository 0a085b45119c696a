-- ===== src/Settings.antt =====
-- The configuration of the agent: pkg/beyla/config.go and config_obi.go, the
-- criteria of pkg/services/criteria.go, and the credentials of pkg/export/otel/grafana.go.
pub mod Grafana
pub mod Discovery
pub mod Features
pub mod Validate
pub mod Obi
pub mod Tests
