-- ===== src/Auth.antt =====
-- API keys (backend/services/auth/api_key_service.py).
pub mod Keys
pub mod Create
pub mod Middleware
mod Tests
use llm_inference_gpu_server.Common.{⊤, String, Option, none, some, List, Bool, true, not, str_mem}
use llm_inference_gpu_server.Errors.{AppError, app, Action, raise_if}

-- `AuthContext`
pub record AuthContext : Type 0 where
  pub api_key_id : String
  pub user_id : String
  pub project_id : String
  pub allowed_models : Option (List String)

abbrev pub missing_api_key : AppError
missing_api_key = record {
  message = "Missing API key";
  code = "missing_api_key";
  status_code = 401;
  error_type = "invalid_request_error";
  param = none;
}

abbrev pub model_not_allowed : AppError
model_not_allowed = record {
  message = "API key is not allowed to access the requested model";
  code = "model_not_allowed";
  status_code = 403;
  error_type = "invalid_request_error";
  param = some "model";
}

-- The test of `ensure_model_allowed`
unfoldable pub model_allowed : Option (List String) → String → Bool
model_allowed none model = true
model_allowed (some models) model = str_mem model models

-- `ensure_model_allowed`
unfoldable pub ensure_model_allowed : {S : Type 0} → AuthContext → String → Action S ⊤
ensure_model_allowed auth_context model =
    raise_if (not (model_allowed auth_context.allowed_models model)) (app model_not_allowed)
