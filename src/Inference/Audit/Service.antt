-- ===== src/Inference/Audit/Service.antt =====
-- `RequestAuditRepository` (backend/repositories/request_audit_repository.py) and
-- `RequestAuditService` (backend/services/inference/usage_finalizer.py), over the database, which is
-- not part of the repository.
use llm_inference_gpu_server.Common.{⊤, ℕ, String, Option, none, some}
use llm_inference_gpu_server.Errors.{Action, pure, ◌>>=◌, ◌>>◌}
use llm_inference_gpu_server.Inference.Audit.{AuditStart, AuditFinal}
use llm_inference_gpu_server.Inference.Audit.Row.{
  RequestAuditRecord, audit_record_from_start, finalized,
}

-- The session on the table, over the state `D` of the database: a `select` by the identifier; `add`
-- and `flush` of a new row; `flush` of one that was changed; a transaction; and the defaults of the
-- columns.
pub record AuditDatabase (D : Type 0) : Type 1 where
  pub find : String → Action D (Option RequestAuditRecord)
  pub insert : RequestAuditRecord → Action D ⊤
  pub update : RequestAuditRecord → Action D ⊤
  pub begin : {A : Type 0} → Action D A → Action D A
  pub uuid4 : Action D String
  pub utc_now : Action D ℕ

module _ {D : Type 0} (db : AuditDatabase D) where
  -- `RequestAuditService.start`
  unfoldable pub start : AuditStart → Action D String
  start audit = db.begin (
      db.uuid4 >>= λ id.
      db.utc_now >>= λ now. db.insert (audit_record_from_start audit id now) >> pure id)

  -- `RequestAuditRepository.finalize`, on the row that `get` has found.
  unfoldable pub finalize_row : AuditFinal → Option RequestAuditRecord → Action D ⊤
  finalize_row final none = pure tt
  finalize_row final (some row) = db.utc_now >>= λ now. db.update (finalized final now row)

  -- `RequestAuditService.finalize`
  unfoldable pub finalize : AuditFinal → Action D ⊤
  finalize final = db.begin (db.find final.record_id >>= finalize_row final)
