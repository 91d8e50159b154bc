-- ===== src/Vllm.antt =====
-- The client side of vLLM (backend/services/vllm).
pub mod Stream
pub mod Client
pub mod Runtime
mod Tests
