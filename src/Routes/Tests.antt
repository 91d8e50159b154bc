-- ===== src/Routes/Tests.antt =====
-- A run of the route with an engine that fails (backend/api/routes/chat_completions.py).
use llm_inference_gpu_server.Common.{⊤, ℕ, ◌+◌, refl, false, Option, none, some, [], ◌∷◌}
use llm_inference_gpu_server.Common.Int.{pos}
use llm_inference_gpu_server.Errors.{Exc, other, ok, raise}
use llm_inference_gpu_server.Errors.Ends.{Ends, Returns}
use llm_inference_gpu_server.Text.{Text, codes}
use llm_inference_gpu_server.Json.{Json, Fields, end}
use llm_inference_gpu_server.Auth.{AuthContext}
use llm_inference_gpu_server.Inference.Chat.{ChatCompletionRequest, plain}
use llm_inference_gpu_server.Inference.Tokens.{Limits, count_text}
use llm_inference_gpu_server.Inference.Audit.{Hashing, AuditStart}
use llm_inference_gpu_server.Inference.Ports.{Ports, PortsLaws}
use llm_inference_gpu_server.Routes.ChatStream.{Upstream, event, broken}
use llm_inference_gpu_server.Routes.ChatCompletions.{AppState, Admitted, create_chat_completion}
use llm_inference_gpu_server.Routes.ChatCompletions.Balance.{
  Served, NotServed, create_chat_completion-Served,
}

-- The counts of the two calls.
record Counts : Type 0 where
  admitted : ℕ
  released : ℕ

abbrev unavailable : Exc
unavailable = other none "unavailable"

abbrev ports : Ports Counts ⊤
ports = record {
  admit = λ auth_context tokens c. (ok tt, record c { admitted = c.admitted + 1 });
  finalize_tokens = λ lease tokens release_all c. (raise unavailable, c);
  release = λ lease c. (ok tt, record c { released = c.released + 1 });
  start_audit = λ audit c. (ok "audit_1", c);
  finalize_audit = λ final c. (ok tt, c);
  create_chat_completion = λ payload c. (raise unavailable, c);
  collect = λ event c. (ok false, c);
  elapsed_ms = λ c. (ok (pos 7), c);
  utc_now = λ c. (ok (pos 0), c);
}

abbrev laws : PortsLaws ports
laws = record {
  admits = λ c. c.admitted;
  releases = λ c. c.released;
  admit_law = λ auth_context tokens c. record { holds = (refl, refl) };
  release_law = λ lease c. record { holds = (refl, refl) };
  finalize_tokens_law =
      λ lease tokens release_all. record { ends = λ c. record { holds = (refl, refl) } };
  start_audit_law = λ audit. record { ends = λ c. record { holds = (refl, refl) } };
  finalize_audit_law = λ final. record { ends = λ c. record { holds = (refl, refl) } };
  create_chat_completion_law = λ payload. record { ends = λ c. record { holds = (refl, refl) } };
  collect_law = λ event. record { ends = λ c. record { holds = (refl, refl) } };
  elapsed_ms_law = record { ends = λ c. record { holds = (refl, refl) } };
  utc_now_law = record { ends = λ c. record { holds = (refl, refl) } };
}

starts : (audit : AuditStart) (c : Counts) → Returns (ports.start_audit audit c)
starts audit c = record { holds = tt }

abbrev limits : Limits
limits = record {
  max_input_tokens = pos 600;
  max_output_tokens = pos 64;
  max_total_tokens = pos 640;
}

abbrev hashing : Hashing
hashing = record { sha256_hex = λ t. "digest"; dump_parts = λ ps. [] }

abbrev body : ChatCompletionRequest
body = record {
  model = "qwen";
  messages = record { role = codes "user"; content = plain (codes "hello") } ∷ [];
  stream = false;
  max_tokens = none;
}

abbrev caller : AuthContext
caller = record {
  api_key_id = "key_1";
  user_id = "user_1";
  project_id = "project_1";
  allowed_models = some ("qwen" ∷ []);
}

abbrev start : AppState × Counts
start = (record { last_usage = none; usage_records = [] }, record { admitted = 3; released = 3 })

abbrev dump : ChatCompletionRequest → Fields
dump request = end

create_chat_completion-Served_example :
    Ends {S = AppState × Counts}
      (λ _ v. Served laws body.stream start v)
      (λ _ v. NotServed laws start v)
      (create_chat_completion ports count_text limits hashing dump
        (some caller)
        (some "req_1")
        body
        start)
create_chat_completion-Served_example =
    create_chat_completion-Served laws starts count_text limits hashing dump (some "req_1") body
      (some caller) start

-- The settling of tokens returns here.
abbrev stream_ports : Ports Counts ⊤
stream_ports = record ports { finalize_tokens = λ lease tokens release_all c. (ok tt, c) }

abbrev stream_laws : PortsLaws stream_ports
stream_laws = record {
  admits = λ c. c.admitted;
  releases = λ c. c.released;
  admit_law = laws.admit_law;
  release_law = laws.release_law;
  finalize_tokens_law =
      λ lease tokens release_all. record { ends = λ c. record { holds = (refl, refl) } };
  start_audit_law = laws.start_audit_law;
  finalize_audit_law = laws.finalize_audit_law;
  create_chat_completion_law = laws.create_chat_completion_law;
  collect_law = laws.collect_law;
  elapsed_ms_law = laws.elapsed_ms_law;
  utc_now_law = laws.utc_now_law;
}

abbrev admitted : Admitted ⊤
admitted = record {
  lease = tt;
  record_id = "audit_1";
  plan = record {
    prompt_tokens = 7;
    max_completion_tokens = pos 9;
    estimated_total_tokens = pos 16;
  };
  auth_context = caller;
  request_id = "req_1";
  model = "qwen";
}

abbrev no_json : Text → Option Json
no_json t = none

abbrev upstream : Upstream
upstream = event false (codes "data: {}") false (broken unavailable)
