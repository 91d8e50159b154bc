-- ===== src/RateLimit.antt =====
-- Admission control (backend/services/rate_limit).
pub mod Keys
pub mod Limiter
pub mod Concurrency
pub mod Quota
pub mod Admission
mod Tests
