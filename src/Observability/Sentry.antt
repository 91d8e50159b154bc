-- ===== src/Observability/Sentry.antt =====
-- What is reported to Sentry, and what is taken out of it before
-- (backend/services/observability/sentry.py).
pub mod Patterns
pub mod Scrub
pub mod Capture
