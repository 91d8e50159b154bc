-- ===== src/Batch/Service.antt =====
-- `BatchJobService` (backend/services/batch/batch_service.py): jobs are submitted, read and given up
-- by the callers of the API.
pub mod Submit
pub mod Access
use llm_inference_gpu_server.Common.{
  String, Bool, true, false, ◌&&◌, not, Option, none, some, if◌then◌else◌,
}
use llm_inference_gpu_server.Errors.{
  AppError, Exc, app, Action, pure, throw, ◌>>=◌, ◌>>◌, try_except, raise_if,
}
use llm_inference_gpu_server.Errors.Parts.{on_first, on_second}
use llm_inference_gpu_server.Json.{Json, bool, Fields, get_field, set_field}
use llm_inference_gpu_server.Auth.{AuthContext}
use llm_inference_gpu_server.Batch.Status.{is_terminal, cancelled}
use llm_inference_gpu_server.Batch.Job.{BatchJobRecord, can_access_job}
use llm_inference_gpu_server.Batch.Store.{BatchJobStore}
use llm_inference_gpu_server.Batch.Queue.{BatchQueue}

abbrev pub streaming_not_supported : AppError
streaming_not_supported = record {
  message = "Batch jobs do not support streaming requests";
  code = "batch_streaming_not_supported";
  status_code = 400;
  error_type = "invalid_request_error";
  param = some "stream";
}

abbrev pub batch_job_not_found : AppError
batch_job_not_found = record {
  message = "Batch job not found";
  code = "batch_job_not_found";
  status_code = 404;
  error_type = "invalid_request_error";
  param = none;
}

-- `payload.get("stream") is True`
abbrev pub is_true : Option Json → Bool
is_true (some (bool true)) = true
is_true _ = false

-- `auth_context is not None and not _can_access_job(job, auth_context)`
unfoldable pub is_denied : Option AuthContext → BatchJobRecord → Bool
is_denied none job = false
is_denied (some auth_context) job = not (can_access_job job auth_context)

module _ {J : Type 0} where
  -- The two checks of `get`, on what the store has answered.
  unfoldable pub found : Option AuthContext → Option BatchJobRecord → Action J BatchJobRecord
  found auth_context none = throw (app batch_job_not_found)
  found auth_context (some job) =
      raise_if (is_denied auth_context job) (app batch_job_not_found) >> pure job

module _ {J : Type 0} (store : BatchJobStore J) where
  module _ {Q : Type 0} (queue : BatchQueue Q) where
    -- A failure of the queue is ignored.
    unfoldable pub enqueue_or_leave : BatchJobRecord → Action (J × Q) BatchJobRecord
    enqueue_or_leave job = try_except (on_second (queue.enqueue job.id) >> pure job) (λ _. pure job)

    -- `submit`, for the fresh identifier `id` that `create` makes and the dump `payload` of a
    -- request for `model`.
    unfoldable pub submit : String → AuthContext → Fields → String → Action (J × Q) BatchJobRecord
    submit id auth_context payload model = do
      raise_if (is_true (get_field payload "stream")) (app streaming_not_supported)
      job ← on_first (store.create id auth_context (set_field payload "stream" (bool false)) model)
      enqueue_or_leave job

  -- `get`
  unfoldable pub get_job : String → Option AuthContext → Action J BatchJobRecord
  get_job job_id auth_context = store.get job_id >>= found auth_context

  -- The end of `cancel`: `cancelled or await self.get(job_id, auth_context=auth_context)`, after
  -- the second check of the caller.
  unfoldable pub after_transition :
      String → Option AuthContext → Option BatchJobRecord → Action J BatchJobRecord
  after_transition job_id auth_context none = get_job job_id auth_context
  after_transition job_id auth_context (some job) =
      raise_if (is_denied auth_context job) (app batch_job_not_found) >> pure job

  -- `cancel`
  unfoldable pub cancel : String → Option AuthContext → Action J BatchJobRecord
  cancel job_id auth_context = get_job job_id auth_context >>= (λ job.
      if is_terminal job.status
      then pure job
      else store.transition job_id cancelled >>= after_transition job_id auth_context)
