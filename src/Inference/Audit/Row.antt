-- ===== src/Inference/Audit/Row.antt =====
-- The rows of the table of audits (backend/models/request_audit.py) and the columns that are written.
use llm_inference_gpu_server.Common.{ℕ, String, ◌≡◌, refl, ap, Option, none, some}
use llm_inference_gpu_server.Common.Int.{ℤ}
use llm_inference_gpu_server.Inference.Audit.{AuditStart, AuditFinal}

-- `RequestAuditRecord`. A time is a number of microseconds.
pub record RequestAuditRecord : Type 0 where
  pub id : String
  pub request_id : String
  pub user_id : String
  pub project_id : String
  pub api_key_id : String
  pub model : String
  pub status : String
  pub prompt_tokens : Option ℤ
  pub completion_tokens : Option ℤ
  pub total_tokens : Option ℤ
  pub latency_ms : Option ℤ
  pub error_code : Option String
  pub prompt_hash : Option String
  pub created_at : ℕ
  pub completed_at : Option ℕ

-- `audit_record_from_start`, with the identifier and the time that are the defaults of their columns.
unfoldable pub audit_record_from_start : AuditStart → String → ℕ → RequestAuditRecord
audit_record_from_start start id now = record {
  id = id;
  request_id = start.request_id;
  user_id = start.user_id;
  project_id = start.project_id;
  api_key_id = start.api_key_id;
  model = start.model;
  status = "accepted";
  prompt_tokens = none;
  completion_tokens = none;
  total_tokens = none;
  latency_ms = none;
  error_code = none;
  prompt_hash = start.prompt_hash;
  created_at = now;
  completed_at = none;
}

-- The columns that `RequestAuditRepository.finalize` writes.
unfoldable pub finalized : AuditFinal → ℕ → RequestAuditRecord → RequestAuditRecord
finalized final now row = record row {
  status = final.status;
  prompt_tokens = final.prompt_tokens;
  completion_tokens = final.completion_tokens;
  total_tokens = final.total_tokens;
  latency_ms = final.latency_ms;
  error_code = final.error_code;
  completed_at = some now;
}

-- What a row says: how the request started, and how it ended, once it has.
pub record Entry : Type 0 where
  pub record_id : String
  pub start : AuditStart
  pub final : Option AuditFinal

abbrev ended : RequestAuditRecord → Option ℕ → Option AuditFinal
ended row none = none
ended row (some now) = some (record {
  record_id = row.id;
  status = row.status;
  prompt_tokens = row.prompt_tokens;
  completion_tokens = row.completion_tokens;
  total_tokens = row.total_tokens;
  latency_ms = row.latency_ms;
  error_code = row.error_code;
})

unfoldable pub entry_of : RequestAuditRecord → Entry
entry_of row = record {
  record_id = row.id;
  start = record {
    request_id = row.request_id;
    user_id = row.user_id;
    project_id = row.project_id;
    api_key_id = row.api_key_id;
    model = row.model;
    prompt_hash = row.prompt_hash;
  };
  final = ended row row.completed_at;
}

pub entry_of-audit_record_from_start :
    (start : AuditStart) (id : String) (now : ℕ)
    → entry_of (audit_record_from_start start id now)
      ≡ record { record_id = id; start = start; final = none }
unfolding entry_of audit_record_from_start
entry_of-audit_record_from_start start id now = refl

pub entry_of-finalized :
    (final : AuditFinal) (now : ℕ) (row : RequestAuditRecord)
    → row.id ≡ final.record_id
    → entry_of (finalized final now row) ≡ record (entry_of row) { final = some final }
unfolding entry_of finalized
entry_of-finalized final now row h =
    ap
      (λ id. record {
        record_id = row.id;
        start = (entry_of row).start;
        final = some (record final { record_id = id });
      })
      h
