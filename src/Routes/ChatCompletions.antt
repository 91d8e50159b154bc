-- ===== src/Routes/ChatCompletions.antt =====
-- `create_chat_completion` (backend/api/routes/chat_completions.py). The calls that only report to
-- Sentry and Prometheus are left out.
pub mod Balance
use llm_inference_gpu_server.Common.{
  ⊤, String, Bool, true, false, Option, none, some, List, [], ◌∷◌, ◌++◌, if◌then◌else◌,
}
use llm_inference_gpu_server.Common.Int.{ℤ, pos}
use llm_inference_gpu_server.Errors.{
  Exc, app, other, Action, ok, pure, throw, of_result, ◌>>=◌, ◌>>◌, try_except, try_finally,
}
use llm_inference_gpu_server.Errors.Parts.{on_first, on_second}
use llm_inference_gpu_server.Json.{Fields}
use llm_inference_gpu_server.Auth.{AuthContext, missing_api_key, ensure_model_allowed}
use llm_inference_gpu_server.Analytics.Event.{usage}
use llm_inference_gpu_server.Inference.Chat.{ChatCompletionRequest}
use llm_inference_gpu_server.Inference.Tokens.{
  TokenEstimator, TokenPlan, Limits, UsageRecord, build_token_plan,
}
use llm_inference_gpu_server.Inference.Tokens.Usage.{usage_from_response}
use llm_inference_gpu_server.Inference.Audit.{Hashing, build_audit_start, build_audit_final}
use llm_inference_gpu_server.Inference.Ports.{Ports}

-- What `_record_usage` writes to the state of the application.
pub record AppState : Type 0 where
  pub last_usage : Option UsageRecord
  pub usage_records : List UsageRecord

-- `_record_usage`
unfoldable pub record_usage : UsageRecord → Action AppState ⊤
record_usage u s =
    (ok tt, record s { last_usage = some u; usage_records = s.usage_records ++ u ∷ [] })

-- A `JSONResponse`, or a `StreamingResponse` with what its generator is given.
pub data ChatResponse (L : Type 0) : Type 0 where
  json : Fields → ChatResponse L
  streaming : L → String → TokenPlan → ChatResponse L

-- `getattr(exc, "code", default)`
unfoldable pub error_code_of : String → Exc → String
error_code_of default (app e) = e.code
error_code_of default (other (some code) text) = code
error_code_of default (other none text) = default

-- `str(request_id or "")`
abbrev pub or_empty : Option String → String
or_empty none = ""
or_empty (some s) = s

-- A request that was admitted and whose audit was started.
pub record Admitted (L : Type 0) : Type 0 where
  pub lease : L
  pub record_id : String
  pub plan : TokenPlan
  pub auth_context : AuthContext
  pub request_id : String
  pub model : String

module _ {S L : Type 0} (ports : Ports S L) where
  -- `_emit_usage_analytics`, and the same part of the batch worker.
  unfoldable pub emit_usage_analytics :
      AuthContext → String → String → UsageRecord → ℤ → Option String → Action S ⊤
  emit_usage_analytics auth_context request_id model u latency_ms error_code =
      try_except
        (do
          now ← ports.utc_now
          queued ← ports.collect (
              usage (record {
                event_time = now;
                request_id = request_id;
                user_id = auth_context.user_id;
                project_id = auth_context.project_id;
                api_key_id = auth_context.api_key_id;
                model = model;
                status = u.status;
                prompt_tokens = u.prompt_tokens;
                completion_tokens = u.completion_tokens;
                total_tokens = u.total_tokens;
                latency_ms = some latency_ms;
                error_code = error_code;
                critical = false;
              }))
          pure tt)
        (λ _. pure tt)

  -- What both ends of a request do with its usage.
  unfoldable pub account : Admitted L → UsageRecord → Option String → Action (AppState × S) ⊤
  account a u error_code = do
    on_first (record_usage u)
    latency_ms ← on_second ports.elapsed_ms
    on_second (ports.finalize_audit (build_audit_final a.record_id u (some latency_ms) error_code))
    on_second (emit_usage_analytics a.auth_context a.request_id a.model u latency_ms error_code)

  -- The handler of an exception
  unfoldable pub failed : Admitted L → Exc → Action (AppState × S) (ChatResponse L)
  failed a exc = do
    on_second (ports.finalize_tokens a.lease (pos 0) true)
    account a
        (record {
          prompt_tokens = pos a.plan.prompt_tokens;
          completion_tokens = pos 0;
          total_tokens = pos 0;
          status = "failed";
        })
        (some (error_code_of "internal_server_error" exc))
    throw exc

  module _ (estimator : TokenEstimator) where
    -- The body of the `try`
    unfoldable pub answered : Admitted L → Fields → Action (AppState × S) (ChatResponse L)
    answered a payload = do
      response ← on_second (ports.create_chat_completion payload)
      u ← of_result (usage_from_response response a.plan estimator)
      on_second (ports.finalize_tokens a.lease u.total_tokens false)
      account a u none
      pure (json response)

    -- The `try` with its handler and its `finally`
    unfoldable pub complete : Admitted L → Fields → Action (AppState × S) (ChatResponse L)
    complete a payload =
        try_finally (try_except (answered a payload) (failed a)) (on_second (ports.release a.lease))

    -- `create_chat_completion`; `dump` is `normalize_chat_completion_payload`, the dump that
    -- pydantic makes of a request.
    unfoldable pub create_chat_completion :
        Limits
        → Hashing
        → (ChatCompletionRequest → Fields)
        → Option AuthContext
        → Option String
        → ChatCompletionRequest
        → Action (AppState × S) (ChatResponse L)
    create_chat_completion limits hashing dump none request_id body = throw (app missing_api_key)
    create_chat_completion limits hashing dump (some auth_context) request_id body = do
      ensure_model_allowed auth_context body.model
      plan ← of_result (build_token_plan body estimator limits)
      lease ← on_second (ports.admit auth_context plan.estimated_total_tokens)
      record_id ← on_second (
          ports.start_audit
            (build_audit_start hashing (or_empty request_id) auth_context body.model body.messages))
      if body.stream
          then pure (streaming lease record_id plan)
          else complete
              (record {
                lease = lease;
                record_id = record_id;
                plan = plan;
                auth_context = auth_context;
                request_id = or_empty request_id;
                model = body.model;
              })
              (dump body)
