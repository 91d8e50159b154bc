-- ===== src/Routes/BatchJobs.antt =====
-- The routes of batch jobs (backend/api/routes/batch_jobs.py).
pub mod Access
use llm_inference_gpu_server.Common.{String, Option, none, some}
use llm_inference_gpu_server.Errors.{app, Action, pure, throw, ◌>>=◌, ◌>>◌}
use llm_inference_gpu_server.Errors.Parts.{on_first}
use llm_inference_gpu_server.Json.{Fields}
use llm_inference_gpu_server.Auth.{AuthContext, missing_api_key, ensure_model_allowed}
use llm_inference_gpu_server.Batch.Status.{Status}
use llm_inference_gpu_server.Batch.Job.{BatchJobRecord, BatchJobResponse, to_response}
use llm_inference_gpu_server.Batch.Store.{BatchJobStore}
use llm_inference_gpu_server.Batch.Queue.{BatchQueue}
use llm_inference_gpu_server.Batch.Service.{submit, get_job, cancel}

-- `BatchJobSubmitResponse`
pub record BatchJobSubmitResponse : Type 0 where
  pub job_id : String
  pub status : Status

-- `_auth_context`
unfoldable pub required_context : {S : Type 0} → Option AuthContext → Action S AuthContext
required_context none = throw (app missing_api_key)
required_context (some auth_context) = pure auth_context

module _ {J : Type 0} (store : BatchJobStore J) where
  -- `submit_batch_job`, with the fresh identifier, the dump of the request and its model.
  unfoldable pub submit_batch_job :
      {Q : Type 0}
      → BatchQueue Q
      → String
      → Option AuthContext
      → Fields
      → String
      → Action (J × Q) BatchJobSubmitResponse
  submit_batch_job queue id context payload model = do
    auth_context ← required_context context
    ensure_model_allowed auth_context model
    job ← submit store queue id auth_context payload model
    pure (record { job_id = job.id; status = job.status })

  -- `get_batch_job`
  unfoldable pub get_batch_job : String → Option AuthContext → Action J BatchJobResponse
  get_batch_job job_id context = do
    auth_context ← required_context context
    job ← get_job store job_id (some auth_context)
    pure (to_response job)

  -- `cancel_batch_job`
  unfoldable pub cancel_batch_job : String → Option AuthContext → Action J BatchJobResponse
  cancel_batch_job job_id context = do
    auth_context ← required_context context
    job ← cancel store job_id (some auth_context)
    pure (to_response job)
