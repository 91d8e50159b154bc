-- ===== src/Batch/Postgres/Repository.antt =====
-- `BatchJobRepository` (backend/repositories/batch_job_repository.py), over the database, which is not
-- part of the repository.
use llm_inference_gpu_server.Common.{ℕ, String, Option, List}
use llm_inference_gpu_server.Errors.{Action, ◌>>=◌}
use llm_inference_gpu_server.Json.{Fields}
use llm_inference_gpu_server.Auth.{AuthContext}
use llm_inference_gpu_server.Batch.Status.{Status}
use llm_inference_gpu_server.Batch.Postgres.Row.{BatchJob, new_row, row_succeeded, row_failed}

-- The session on the table, over the state `D` of the database: `session.get`; `add`, `flush` and
-- `refresh` of a new row; `flush` and `refresh` of one that was changed; the rows of a status; a
-- transaction; and the clock.
pub record Database (D : Type 0) : Type 1 where
  pub find : String → Action D (Option BatchJob)
  pub insert : BatchJob → Action D BatchJob
  pub update : BatchJob → Action D BatchJob
  pub select_by_status : Status → ℕ → Action D (List BatchJob)
  pub begin : {A : Type 0} → Action D A → Action D A
  pub utc_now : Action D ℕ
  pub isoformat : ℕ → String

module _ {D : Type 0} (db : Database D) where
  -- `BatchJobRepository.create`
  unfoldable pub create : String → AuthContext → Fields → String → Action D BatchJob
  create id auth_context payload model =
      db.utc_now >>= λ now. db.insert (new_row id now auth_context payload model)

  -- `BatchJobRepository.update_status`
  unfoldable pub update_status : Status → BatchJob → Action D BatchJob
  update_status status job =
      db.utc_now >>= λ now. db.update (record job { status = status; updated_at = now })

  -- `BatchJobRepository.mark_succeeded`
  unfoldable pub mark_succeeded : Fields → Fields → BatchJob → Action D BatchJob
  mark_succeeded result usage job = db.utc_now >>= λ completed_at. db.utc_now >>= λ now.
      db.update (row_succeeded result usage (db.isoformat completed_at) now job)

  -- `BatchJobRepository.mark_failed`
  unfoldable pub mark_failed : String → String → BatchJob → Action D BatchJob
  mark_failed error_code error_message job = db.utc_now >>= λ completed_at. db.utc_now >>= λ now.
      db.update (row_failed error_code error_message (db.isoformat completed_at) now job)
