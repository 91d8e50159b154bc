-- ===== src/Middlewares.antt =====
-- The middlewares and the error handlers of the application (backend/middlewares, backend/main.py).
pub mod RequestId
pub mod ErrorHandler
pub mod Stack
mod Tests
