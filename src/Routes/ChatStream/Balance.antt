-- ===== src/Routes/ChatStream/Balance.antt =====
-- A stream releases its lease once (backend/api/routes/chat_completions.py).
use llm_inference_gpu_server.Errors.Ends.{Ends}
use llm_inference_gpu_server.Text.{Text}
use llm_inference_gpu_server.Json.{Json}
use llm_inference_gpu_server.Inference.Ports.{Ports}
