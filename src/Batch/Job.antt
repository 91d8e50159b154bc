-- ===== src/Batch/Job.antt =====
-- The record of a batch job and what the operations of a store make of it
-- (backend/services/batch/batch_service.py).
use llm_inference_gpu_server.Common.{
  ℕ, String, Bool, ◌&&◌, Option, none, some, if◌then◌else◌, str_eq,
}
use llm_inference_gpu_server.Common.Int.{ℤ}
use llm_inference_gpu_server.Json.{Fields, obj, int, end, field, set_field}
use llm_inference_gpu_server.Auth.{AuthContext}
use llm_inference_gpu_server.Batch.Status.{
  Status, queued, succeeded, failed, is_cancelled, can_transition,
}

-- `BatchJobRecord`
pub record BatchJobRecord : Type 0 where
  pub id : String
  pub user_id : String
  pub project_id : String
  pub api_key_id : String
  pub model : String
  pub status : Status
  pub input_payload : Fields
  pub result_payload : Option Fields
  pub error_code : Option String
  pub error_message : Option String
  pub request_count : ℕ
  pub completed_count : ℕ
  pub failed_count : ℕ
  pub metadata : Fields

-- `BatchJobResponse`
pub record BatchJobResponse : Type 0 where
  pub job_id : String
  pub status : Status
  pub model : String
  pub request_count : ℕ
  pub completed_count : ℕ
  pub failed_count : ℕ
  pub result : Option Fields
  pub error_code : Option String
  pub error_message : Option String

-- `BatchJobRecord.to_response`
unfoldable pub to_response : BatchJobRecord → BatchJobResponse
to_response job = record {
  job_id = job.id;
  status = job.status;
  model = job.model;
  request_count = job.request_count;
  completed_count = job.completed_count;
  failed_count = job.failed_count;
  result = job.result_payload;
  error_code = job.error_code;
  error_message = job.error_message;
}

-- The job that `create` makes, with the fresh identifier `id`.
unfoldable pub new_job : String → AuthContext → Fields → String → BatchJobRecord
new_job id auth_context payload model = record {
  id = id;
  user_id = auth_context.user_id;
  project_id = auth_context.project_id;
  api_key_id = auth_context.api_key_id;
  model = model;
  status = queued;
  input_payload = payload;
  result_payload = none;
  error_code = none;
  error_message = none;
  request_count = 1;
  completed_count = 0;
  failed_count = 0;
  metadata = end;
}

-- `_can_access_job`
unfoldable pub can_access_job : BatchJobRecord → AuthContext → Bool
can_access_job job auth_context =
    str_eq job.user_id auth_context.user_id && str_eq job.project_id auth_context.project_id

-- `usage_dict`
unfoldable pub usage_dict : ℤ → ℤ → ℤ → Fields
usage_dict prompt_tokens completion_tokens total_tokens =
    field "prompt_tokens" (int prompt_tokens) (
      field "completion_tokens" (int completion_tokens)
        (field "total_tokens" (int total_tokens) end))

-- What `transition` writes to a job, if it does.
unfoldable pub transitioned : Status → BatchJobRecord → Option BatchJobRecord
transitioned target job =
    if can_transition job.status target then some (record job { status = target }) else none

-- What `mark_succeeded` writes to a job, if it does.
unfoldable pub marked_succeeded : Fields → Fields → BatchJobRecord → Option BatchJobRecord
marked_succeeded result usage job =
    if is_cancelled job.status
    then none
    else some (record job {
      status = succeeded;
      result_payload = some result;
      completed_count = 1;
      failed_count = 0;
      metadata = set_field job.metadata "usage" (obj usage);
    })

-- What `mark_failed` writes to a job, if it does.
unfoldable pub marked_failed : String → String → BatchJobRecord → Option BatchJobRecord
marked_failed error_code error_message job =
    if is_cancelled job.status
    then none
    else some (record job {
      status = failed;
      error_code = some error_code;
      error_message = some error_message;
      failed_count = 1;
    })
