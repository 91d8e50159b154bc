-- ===== src/Batch.antt =====
-- Batch jobs (backend/services/batch).
pub mod Status
pub mod Job
pub mod Store
pub mod Contract
pub mod Postgres
pub mod Queue
pub mod Service
pub mod Scanner
pub mod Worker
mod Tests
