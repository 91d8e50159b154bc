-- ===== src/Routes/BatchTests.antt =====
-- Runs of the routes of batch jobs (backend/api/routes/batch_jobs.py).
use llm_inference_gpu_server.Common.{none, [], ◌∷◌}
use llm_inference_gpu_server.Errors.Ends.{Ends}
use llm_inference_gpu_server.Json.{end}
use llm_inference_gpu_server.Auth.{AuthContext}
use llm_inference_gpu_server.Batch.Status.{Status}
use llm_inference_gpu_server.Batch.Job.{new_job}
use llm_inference_gpu_server.Batch.Store.Memory.{Jobs}

abbrev caller : AuthContext
caller = record {
  api_key_id = "key_1";
  user_id = "user_1";
  project_id = "project_1";
  allowed_models = none;
}

abbrev jobs : Jobs
jobs = ("job_1", new_job "job_1" caller end "qwen") ∷ []
