-- ===== src/Inference/Audit/Tests.antt =====
-- Two requests on the table in memory, one of which ends while the other runs
-- (backend/services/inference/usage_finalizer.py).
use llm_inference_gpu_server.Common.{
  ⊤, String, ◌≡◌, ◌≢◌, refl, sym, ap, ◌∙◌, none, some, List, [], ◌∷◌,
}
use llm_inference_gpu_server.Common.Int.{pos}
use llm_inference_gpu_server.Text.{decimal, decimal_from}
use llm_inference_gpu_server.Errors.{ok, pure, ◌>>=◌, ◌>>◌, try_except}
use llm_inference_gpu_server.Errors.Ends.{Ends}
use llm_inference_gpu_server.Inference.Tokens.{UsageRecord}
use llm_inference_gpu_server.Inference.Audit.{AuditStart, AuditFinal, build_audit_final}
use llm_inference_gpu_server.Inference.Audit.Row.{audit_record_from_start, finalized}
use llm_inference_gpu_server.Inference.Audit.Service.{start, finalize, finalize_row}
use llm_inference_gpu_server.Inference.Audit.Own.{
  Call, start_call, finalize_call, Elsewhere, entry_at, audited, audited-Own,
}
use llm_inference_gpu_server.Inference.Audit.Memory.{
  AuditTable, row_at, memory_audits, memory_audits_laws,
}

abbrev audit : AuditStart
audit = record {
  request_id = "r";
  user_id = "u";
  project_id = "p";
  api_key_id = "k";
  model = "qwen";
  prompt_hash = some "h";
}

abbrev earlier : AuditTable
earlier = audit_record_from_start (record audit { request_id = "q" }) "first" 3 ∷ []

abbrev usage : UsageRecord
usage = record {
  prompt_tokens = pos 5;
  completion_tokens = pos 2;
  total_tokens = pos 7;
  status = "completed";
}

abbrev failed : AuditFinal
failed = record {
  record_id = "first";
  status = "failed";
  prompt_tokens = none;
  completion_tokens = none;
  total_tokens = none;
  latency_ms = none;
  error_code = some "timeout";
}

abbrev others : String → List Call
others id = start_call (record audit { request_id = "s" }) ∷ finalize_call failed ∷ []

elsewhere : (id : String) → row_at earlier id ≡ none → Elsewhere id (others id)
unfolding audit_record_from_start
elsewhere id h = (λ e. absurd (taken (sym (ap (row_at earlier) e) ∙ h)), tt)
  where
    taken : row_at earlier "first" ≢ none
    taken h = absurd (cc)

audited-Own_example :
    Ends
      (λ id t.
        (row_at earlier id ≡ none)
        × (entry_at (row_at t) id
            ≡ some (record {
              record_id = id;
              start = audit;
              final = some (build_audit_final id usage (some (pos 40)) none);
            })))
      (λ _ _. ⊤)
      (audited memory_audits audit others usage (some (pos 40)) none earlier)
audited-Own_example =
    audited-Own memory_audits_laws audit others usage (some (pos 40)) none earlier elsewhere

abbrev answer : String
answer = "1"

audited_returns :
    (audited memory_audits audit others usage (some (pos 40)) none earlier).0 ≡ ok answer
unfolding pure ◌>>=◌ ◌>>◌ try_except start finalize finalize_row decimal decimal_from
    audit_record_from_start build_audit_final finalized
audited_returns = refl
