-- ===== src/Observability.antt =====
-- core/observability: the per-account counters and the per-account ring of alerts.
pub mod Metrics
pub mod Alerts
