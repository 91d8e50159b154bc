-- ===== src/Inference.antt =====
-- Inference requests (backend/services/inference, backend/schemas/chat_completion.py).
pub mod Chat
pub mod Tokens
pub mod Audit
pub mod Ports
mod Tests
