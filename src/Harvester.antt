-- ===== src/Harvester.antt =====
-- pkg/internal/infraolly/process: what Beyla reads of a running process, and how it measures one from
-- harvest to harvest.
pub mod Stat
pub mod CommandLine
pub mod Snapshot
pub mod Harvest
pub mod Collect
mod Tests
