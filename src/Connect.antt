-- ===== src/Connect.antt =====
-- pkg/export/otel/connect_spans.go: the spans between clusters, grouped by service and sent as traces.
pub mod Spans
pub mod Queue
mod Tests
