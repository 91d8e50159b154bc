-- ===== src/Analytics.antt =====
-- The analytics pipeline (backend/services/analytics).
pub mod Event
pub mod Collector
pub mod Flusher
mod Tests
