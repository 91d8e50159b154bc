-- ===== src/Batch/Postgres.antt =====
-- The store of batch jobs on Postgres (backend/services/batch/batch_service.py,
-- backend/repositories/batch_job_repository.py, backend/models/batch_job.py).
pub mod Row
pub mod Repository
pub mod Store
pub mod Laws
pub mod Seen
pub mod Writes
pub mod Changes
pub mod Refines
pub mod Agree
pub mod Memory
mod Tests
