-- ===== src/Export.antt =====
-- pkg/export: the metrics that Beyla exports of surveyed services and of processes.
pub mod Labels
pub mod Features
pub mod Survey
pub mod Process
mod Tests
