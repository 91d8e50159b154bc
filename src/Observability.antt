-- ===== src/Observability.antt =====
-- Metrics and the scrubbing of reported errors (backend/services/observability).
pub mod Metrics
pub mod Sentry
mod Tests
