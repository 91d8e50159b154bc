-- ===== src/Routes.antt =====
-- The routes of the API (backend/api/routes).
pub mod ChatCompletions
pub mod ChatStream
mod Tests
pub mod BatchJobs
mod BatchTests
