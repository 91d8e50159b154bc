-- ===== src/Inference/Audit.antt =====
-- The audit of a request (backend/services/inference/request_lifecycle.py).
pub mod Row
pub mod Service
pub mod Written
pub mod Own
pub mod Memory
mod Tests
use llm_inference_gpu_server.Common.{String, Option, none, some, List, [], ◌∷◌, ◌++◌}
use llm_inference_gpu_server.Common.Int.{ℤ}
use llm_inference_gpu_server.Text.{Text}
use llm_inference_gpu_server.Auth.{AuthContext}
use llm_inference_gpu_server.Inference.Chat.{Part, Content, plain, parts, ChatMessage}
use llm_inference_gpu_server.Inference.Tokens.{UsageRecord}

-- `AuditStart`
pub record AuditStart : Type 0 where
  pub request_id : String
  pub user_id : String
  pub project_id : String
  pub api_key_id : String
  pub model : String
  pub prompt_hash : Option String

-- `AuditFinal`
pub record AuditFinal : Type 0 where
  pub record_id : String
  pub status : String
  pub prompt_tokens : Option ℤ
  pub completion_tokens : Option ℤ
  pub total_tokens : Option ℤ
  pub latency_ms : Option ℤ
  pub error_code : Option String

-- What the hash of a prompt is made with: `sha256` of a text in UTF-8, in hexadecimal, and
-- `json.dumps` of the dumps that pydantic makes of parts.
pub record Hashing : Type 0 where
  pub sha256_hex : Text → String
  pub dump_parts : List Part → Text

module _ (hashing : Hashing) where
  -- `_serialize_message_content`
  unfoldable pub serialize_content : Content → Text
  serialize_content (plain t) = t
  serialize_content (parts ps) = hashing.dump_parts ps

  -- What the loop of `hash_prompt` feeds to the digest.
  unfoldable pub digested : List ChatMessage → Text
  digested [] = []
  digested (m ∷ ms) = m.role ++ 0 ∷ serialize_content m.content ++ 0 ∷ digested ms

  -- `hash_prompt`
  unfoldable pub hash_prompt : List ChatMessage → Option String
  hash_prompt [] = none
  hash_prompt (m ∷ ms) = some (hashing.sha256_hex (digested (m ∷ ms)))

  -- `build_audit_start`
  unfoldable pub build_audit_start : String → AuthContext → String → List ChatMessage → AuditStart
  build_audit_start request_id auth_context model messages = record {
    request_id = request_id;
    user_id = auth_context.user_id;
    project_id = auth_context.project_id;
    api_key_id = auth_context.api_key_id;
    model = model;
    prompt_hash = hash_prompt messages;
  }

-- `build_audit_final`
unfoldable pub build_audit_final : String → UsageRecord → Option ℤ → Option String → AuditFinal
build_audit_final record_id usage latency_ms error_code = record {
  record_id = record_id;
  status = usage.status;
  prompt_tokens = some usage.prompt_tokens;
  completion_tokens = some usage.completion_tokens;
  total_tokens = some usage.total_tokens;
  latency_ms = latency_ms;
  error_code = error_code;
}
