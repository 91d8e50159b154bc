-- ===== src/Batch/Postgres/Agree.antt =====
-- The store of the tests stands for the store of production (backend/services/batch/batch_service.py).
use llm_inference_gpu_server.Errors.Ends.{Ends}
use llm_inference_gpu_server.Batch.Contract.Records
use llm_inference_gpu_server.Batch.Store.Memory
