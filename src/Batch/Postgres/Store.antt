-- ===== src/Batch/Postgres/Store.antt =====
-- `PostgresBatchJobStore` (backend/services/batch/batch_service.py).
use mathlib.Core.Option
use llm_inference_gpu_server.Common.{
  ℕ, String, Bool, not, Option, none, some, List, map, if◌then◌else◌,
}
use llm_inference_gpu_server.Errors.{Action, pure, ◌>>=◌}
use llm_inference_gpu_server.Json.{Fields}
use llm_inference_gpu_server.Auth.{AuthContext}
use llm_inference_gpu_server.Batch.Status.{Status, queued, is_cancelled, can_transition}
use llm_inference_gpu_server.Batch.Job.{BatchJobRecord}
use llm_inference_gpu_server.Batch.Store.{BatchJobStore}
use llm_inference_gpu_server.Batch.Postgres.Row.{BatchJob, record_from_model}
use llm_inference_gpu_server.Batch.Postgres.Repository.{Database}
use llm_inference_gpu_server.Batch.Postgres.Repository

module _ {D : Type 0} (db : Database D) where
  -- What `transition`, `mark_succeeded` and `mark_failed` share: none where there is no job or it is
  -- refused, and otherwise the job as it was written.
  unfoldable pub on_row :
      (BatchJob → Bool)
      → (BatchJob → Action D BatchJob)
      → Option BatchJob
      → Action D (Option BatchJobRecord)
  on_row refused write none = pure none
  on_row refused write (some row) =
      if refused row then pure none else (write row >>= λ r. pure (some (record_from_model r)))

  unfoldable pub change_row :
      (BatchJob → Bool) → (BatchJob → Action D BatchJob) → String → Action D (Option BatchJobRecord)
  change_row refused write job_id = db.begin (db.find job_id >>= on_row refused write)

  -- `create`
  unfoldable pub create : String → AuthContext → Fields → String → Action D BatchJobRecord
  create id auth_context payload model =
      db.begin
        (Repository.create db id auth_context payload model >>= λ r. pure (record_from_model r))

  -- `get`
  unfoldable pub get : String → Action D (Option BatchJobRecord)
  get job_id = db.begin (db.find job_id >>= λ o. pure (Option.map record_from_model o))

  -- `transition`
  unfoldable pub transition : String → Status → Action D (Option BatchJobRecord)
  transition job_id target =
      change_row (λ row. not (can_transition row.status target))
        (Repository.update_status db target) job_id

  -- `mark_succeeded`
  unfoldable pub mark_succeeded : String → Fields → Fields → Action D (Option BatchJobRecord)
  mark_succeeded job_id result usage =
      change_row (λ row. is_cancelled row.status) (Repository.mark_succeeded db result usage) job_id

  -- `mark_failed`
  unfoldable pub mark_failed : String → String → String → Action D (Option BatchJobRecord)
  mark_failed job_id error_code error_message =
      change_row (λ row. is_cancelled row.status)
        (Repository.mark_failed db error_code error_message) job_id

  -- `list_recoverable`
  unfoldable pub list_recoverable : ℕ → Action D (List BatchJobRecord)
  list_recoverable limit =
      db.begin (db.select_by_status queued limit >>= λ rows. pure (map record_from_model rows))

  -- `PostgresBatchJobStore`
  abbrev pub postgres_store : BatchJobStore D
  postgres_store = record {
    create = create;
    get = get;
    transition = transition;
    mark_succeeded = mark_succeeded;
    mark_failed = mark_failed;
    list_recoverable = list_recoverable;
  }
