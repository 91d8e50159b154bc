-- ===== src/Observability/Sentry/Capture.antt =====
-- The report of an exception to Sentry (backend/services/observability/sentry.py), over its package,
-- which is not part of the repository.
pub mod Sends
pub mod Once
pub mod Memory
use llm_inference_gpu_server.Common.{
  ⊤, ℕ, String, Bool, true, false, not, ◌&&◌, ◌||◌, Option, none, some, List, [], ◌∷◌, ◌++◌,
  if◌then◌else◌, ltb, str_eq,
}
use llm_inference_gpu_server.Errors.{
  Exc, app, other, Result, ok, raise, Action, pure, ◌>>=◌, ◌>>◌, try_except, try_finally,
}
use llm_inference_gpu_server.Errors.Parts.{on_first}
use llm_inference_gpu_server.Json.{Json, Fields, str, obj, field, end}
use llm_inference_gpu_server.Auth.{AuthContext}
use llm_inference_gpu_server.Observability.Metrics.{exc_code}
use llm_inference_gpu_server.Observability.Sentry.Scrub.{scrub_data}

-- The settings that are read.
pub record SentrySettings : Type 0 where
  pub sentry_dsn : Option String
  pub app_env : String
  pub release : Option String
  pub sentry_send_default_pii : Bool
  pub sentry_traces_sample_rate : Json

-- `sentry_sdk`, over its state `K`. A scope is entered and left.
pub record SentrySdk (K : Type 0) : Type 0 where
  pub init : SentrySettings → Action K ⊤
  pub enter_scope : Action K ⊤
  pub exit_scope : Action K ⊤
  pub set_tag : String → String → Action K ⊤
  pub set_context : String → Json → Action K ⊤
  pub set_user : Json → Action K ⊤
  pub capture_exception : Exc → Action K (Option String)

-- What is known of a request: `request.state`, and where it was sent.
pub record Request : Type 0 where
  pub auth_context : Option AuthContext
  pub request_id : Option String
  pub path : String
  pub method : String
  pub sentry_exception_captured : Bool

abbrev pub is_set : Option String → Bool
is_set none = false
is_set (some s) = not (str_eq s "")

-- `should_skip_exception`
unfoldable pub should_skip_exception : Exc → Bool
should_skip_exception (app e) = ltb e.status_code 500
should_skip_exception (other code text) = false

-- `str(stream)`, which may be `None`.
abbrev pub str_bool : Option Bool → Option String
str_bool none = none
str_bool (some true) = some "True"
str_bool (some false) = some "False"

-- The tags of a caller.
unfoldable pub caller_tags : Option AuthContext → List (String × Option String)
caller_tags none = []
caller_tags (some context) =
    ("user_id", some context.user_id)
    ∷ ("project_id", some context.project_id)
    ∷ ("api_key_id", some context.api_key_id)
    ∷ []

unfoldable pub request_tags : Request → Option String → Option Bool → List (String × Option String)
request_tags request model stream =
    ("request_id", request.request_id)
    ∷ ("endpoint", some request.path)
    ∷ ("method", some request.method)
    ∷ ("model", model)
    ∷ ("stream", str_bool stream)
    ∷ []

module _ {K : Type 0} (is_word : ℕ → Bool) (sdk : SentrySdk K) where
  -- `initialize_sentry`, with whether the package is there and the global `_sentry_enabled`.
  unfoldable pub initialize_sentry : Bool → SentrySettings → Action (K × Bool) Bool
  initialize_sentry installed settings (k, _) =
      if not (is_set settings.sentry_dsn) || not installed
      then (ok false, (k, false))
      else started (sdk.init settings k)
    where
      started : Result ⊤ × K → Result Bool × (K × Bool)
      started (ok _, t) = (ok true, (t, true))
      started (raise e, t) = (ok false, (t, false))

  -- `for key, value in tags.items(): if value is not None: scope.set_tag(key, str(value))`
  unfoldable pub set_tags : List (String × Option String) → Action K ⊤
  set_tags [] = pure tt
  set_tags ((name, none) ∷ tags) = set_tags tags
  set_tags ((name, some value) ∷ tags) = sdk.set_tag name value >> set_tags tags

  -- `if context: scope.set_context("app", scrub_data(dict(context)))`
  unfoldable pub set_app_context : Fields → Action K ⊤
  set_app_context end = pure tt
  set_app_context (field key v fields) =
      sdk.set_context "app" (scrub_data is_word (obj (field key v fields)))

  -- `with ... as scope`
  unfoldable pub with_scope : {A : Type 0} → Action K A → Action K A
  with_scope m = sdk.enter_scope >> try_finally m sdk.exit_scope

  -- `capture_exception`; `enabled` is that the package is there and was initialized.
  unfoldable pub capture_exception :
      Bool → Exc → List (String × Option String) → Fields → Action K (Option String)
  capture_exception enabled exc tags context =
      if should_skip_exception exc || not enabled
      then pure none
      else try_except
          (with_scope (set_tags tags >> (set_app_context context >> sdk.capture_exception exc)))
          (λ _. pure none)

  unfoldable pub set_caller : Option AuthContext → Action K ⊤
  set_caller none = pure tt
  set_caller (some context) = sdk.set_user (obj (field "id" (str context.user_id) end))

  -- `bind_request_context`
  unfoldable pub bind_request_context : Bool → Request → Option String → Option Bool → Action K ⊤
  bind_request_context enabled request model stream =
      if not enabled
      then pure tt
      else try_except
          (with_scope (
            set_tags (request_tags request model stream ++ caller_tags request.auth_context)
            >> set_caller request.auth_context))
          (λ _. pure tt)

  -- `if event_id is not None: request.state.sentry_exception_captured = True`
  abbrev pub captured : Option String → Request → Request
  captured none request = request
  captured (some id) request = record request { sentry_exception_captured = true }

  abbrev pub noted : Request → Result (Option String) × K → Result (Option String) × (K × Request)
  noted request (ok event_id, k) = (ok event_id, (k, captured event_id request))
  noted request (raise e, k) = (raise e, (k, request))

  -- `capture_request_exception`
  unfoldable pub capture_request_exception :
      Bool → Exc → Option String → Option Bool → Action (K × Request) (Option String)
  capture_request_exception enabled exc model stream (k, request) =
      if request.sentry_exception_captured
      then (ok none, (k, request))
      else noted request (
          (bind_request_context enabled request model stream
              >> capture_exception enabled exc
                  (request_tags request model stream
                    ++ ("error_code", exc_code exc) ∷ caller_tags request.auth_context)
                  end)
            k)
