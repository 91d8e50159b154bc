-- ===== src/Batch/Postgres/Row.antt =====
-- The rows of the table of batch jobs, the columns that are written, and the record that a row is read
-- as (backend/models/batch_job.py, backend/repositories/batch_job_repository.py).
use llm_inference_gpu_server.Common.{ℕ, String, Option, none, some}
use llm_inference_gpu_server.Json.{Json, str, obj, Fields, end, field, get_field, set_field}
use llm_inference_gpu_server.Auth.{AuthContext}
use llm_inference_gpu_server.Batch.Status.{Status, queued, succeeded, failed}
use llm_inference_gpu_server.Batch.Job.{BatchJobRecord}
use llm_inference_gpu_server.Text.{take_str}

-- `BatchJob`, the columns that are read or written. A time is a number of microseconds.
pub record BatchJob : Type 0 where
  pub id : String
  pub user_id : String
  pub project_id : String
  pub api_key_id : String
  pub model : String
  pub status : Status
  pub error_code : Option String
  pub error_message : Option String
  pub request_count : ℕ
  pub completed_count : ℕ
  pub failed_count : ℕ
  pub metadata_json : Option Fields
  pub updated_at : ℕ

-- `dict(job.metadata_json or {})`, and an input payload that is no `dict`.
abbrev pub metadata_of : Option Fields → Fields
metadata_of none = end
metadata_of (some fields) = fields

-- `raw if isinstance(raw, dict) else None`
abbrev pub dict_or_none : Option Json → Option Fields
dict_or_none (some (obj fields)) = some fields
dict_or_none _ = none

-- `_record_from_model`
unfoldable pub record_from_model : BatchJob → BatchJobRecord
record_from_model job =
    let metadata = metadata_of job.metadata_json in
    record {
      id = job.id;
      user_id = job.user_id;
      project_id = job.project_id;
      api_key_id = job.api_key_id;
      model = job.model;
      status = job.status;
      input_payload = metadata_of (dict_or_none (get_field metadata "input_payload"));
      result_payload = dict_or_none (get_field metadata "result_payload");
      error_code = job.error_code;
      error_message = job.error_message;
      request_count = job.request_count;
      completed_count = job.completed_count;
      failed_count = job.failed_count;
      metadata = metadata;
    }

-- The row that `BatchJobRepository.create` adds, with its identifier and time.
unfoldable pub new_row : String → ℕ → AuthContext → Fields → String → BatchJob
new_row id now auth_context payload model = record {
  id = id;
  user_id = auth_context.user_id;
  project_id = auth_context.project_id;
  api_key_id = auth_context.api_key_id;
  model = model;
  status = queued;
  error_code = none;
  error_message = none;
  request_count = 1;
  completed_count = 0;
  failed_count = 0;
  metadata_json = some (field "input_payload" (obj payload) end);
  updated_at = now;
}

-- The columns that `mark_succeeded` and `mark_failed` of the repository write.
unfoldable pub row_succeeded : Fields → Fields → String → ℕ → BatchJob → BatchJob
row_succeeded result usage completed_at now job = record job {
  metadata_json = some (
      set_field
        (set_field (set_field (metadata_of job.metadata_json) "result_payload" (obj result)) "usage"
          (obj usage))
        "completed_at" (str completed_at));
  status = succeeded;
  completed_count = 1;
  failed_count = 0;
  error_code = none;
  error_message = none;
  updated_at = now;
}

unfoldable pub row_failed : String → String → String → ℕ → BatchJob → BatchJob
row_failed error_code error_message completed_at now job = record job {
  metadata_json =
      some (set_field (metadata_of job.metadata_json) "completed_at" (str completed_at));
  status = failed;
  error_code = some error_code;
  error_message = some (take_str 1024 error_message);
  failed_count = 1;
  updated_at = now;
}
