-- ===== src/Middlewares/Tests.antt =====
-- Requests that are refused and exceptions that are answered (backend/middlewares, backend/main.py).
use llm_inference_gpu_server.Common.{
  ℕ, ◌+◌, String, ◌≡◌, ◌≢◌, refl, true, Option, none, some, List, [], ◌∷◌,
}
use llm_inference_gpu_server.Common.Int.{pos}
use llm_inference_gpu_server.Text.{
  Text, codes, decimal, strip, lstrip, rstrip, after_prefix, text_eq,
}
use llm_inference_gpu_server.Errors.{Action, Result, other, ok, throw}
use llm_inference_gpu_server.Errors.Object.{JsonResponse}
use llm_inference_gpu_server.Auth.{AuthContext}
use llm_inference_gpu_server.Auth.Middleware.{
  is_protected_path, is_any_under, is_under, extract_bearer_token, stripped_key, or_none,
}
use llm_inference_gpu_server.Json.{end}
use llm_inference_gpu_server.Middlewares.RequestId.{Scope, request_id_or}
use llm_inference_gpu_server.Middlewares.ErrorHandler.{
  unhandled, handle, Answers, told, handle-Answers,
}
use llm_inference_gpu_server.Middlewares.Stack.{
  application, application-Anonymous, IsRefusal, json_responses,
}
use llm_inference_gpu_server.Observability.Metrics.{
  step, path_template, http_requests_total, status_of, code_of,
}
use llm_inference_gpu_server.Observability.Metrics
use llm_inference_gpu_server.Observability.Metrics.Counted.{gained, dispatch-Counted}
use llm_inference_gpu_server.Observability.Metrics.Memory.{
  Registry, count, memory_prometheus, memory_prometheus_laws,
}
use llm_inference_gpu_server.Observability.Sentry.Capture.Memory.{
  sdk, sdk_laws, ascii_word, sample_request,
}

abbrev scope : Scope
scope = record { request_id = none; request_id_context = none }

abbrev authenticate_none : Text → Action (ℕ × Scope) AuthContext
authenticate_none key = throw (other none "down")

abbrev response : JsonResponse
response = record { status_code = 200; content = end; headers = [] }

abbrev route : Option AuthContext → Action (ℕ × Scope) JsonResponse
route context w = (ok response, w)

chat_is_protected : is_protected_path (codes "/v1/batch/jobs") ≡ true
unfolding is_any_under is_under after_prefix text_eq
chat_is_protected = refl

basic_is_no_bearer : extract_bearer_token (some (codes "Basic abc")) ≡ none
unfolding extract_bearer_token stripped_key or_none strip lstrip rstrip after_prefix
basic_is_no_bearer = refl

abbrev empty_registry : Registry
empty_registry = []

abbrev after : Result JsonResponse × ((ℕ × Scope) × Registry)
after =
    application memory_prometheus (λ n. pos 0) (λ n. none) (λ text. none) authenticate_none route
      "POST" "/v1/batch/jobs" (some "r1") (some (codes "Basic abc")) "r2"
      ((0, scope), empty_registry)

application-Anonymous_example :
    ((response : JsonResponse) × (after.0 ≡ ok response)
      × IsRefusal (request_id_or (some "r1") "r2") response)
    × (after.1.0 ≡ (
      0,
      record { request_id = some (request_id_or (some "r1") "r2"); request_id_context = none },
    ))
    × ((name : String) (labels : List String)
        → count after.1.1 name labels
          ≡ step http_requests_total ("POST" ∷ "/v1/batch/jobs" ∷ decimal 401 ∷ []) name labels
            + count empty_registry name labels)
unfolding path_template
application-Anonymous_example =
    application-Anonymous memory_prometheus (λ n. pos 0) (λ n. none) (λ text. none)
      authenticate_none route memory_prometheus_laws "POST" "/v1/batch/jobs" (some "r1")
      (some (codes "Basic abc")) "r2" 0 scope empty_registry chat_is_protected basic_is_no_bearer

handle-Answers_example :
    Answers ascii_word sdk_laws
      (some "r1")
      0
      (told (unhandled (other none "boom")))
      (handle ascii_word sdk true (unhandled (other none "boom")) (0, sample_request))
handle-Answers_example =
    handle-Answers ascii_word sdk_laws true (unhandled (other none "boom")) 0 (0, sample_request)
      refl

abbrev overloaded : JsonResponse
overloaded = record {
  status_code = 503;
  content = end;
  headers = ("x-error-code", "service_overloaded") ∷ [];
}

abbrev overload : Action ℕ JsonResponse
overload n = (ok overloaded, n)

abbrev measured : Result JsonResponse × (ℕ × Registry)
measured =
    Metrics.dispatch json_responses (λ text. none) memory_prometheus (λ n. pos 0) (λ n. none) "GET"
      "/health" overload (0, empty_registry)

abbrev code : Option String
code = code_of json_responses (λ text. none) (ok overloaded)

abbrev health : String
health = "/health"

not_metrics : health ≢ "/metrics"
not_metrics e = absurd (cc)

dispatch-Counted_example :
    (measured.0 ≡ ok overloaded)
    × (measured.1.0 ≡ 0)
    × ((name : String) (labels : List String)
        → count measured.1.1 name labels
          ≡ gained "GET" (path_template none "/health") 503 code name labels
            + count empty_registry name labels)
unfolding status_of
dispatch-Counted_example =
    dispatch-Counted memory_prometheus_laws json_responses (λ text. none) (λ n. pos 0) (λ n. none)
      "GET" "/health" overload 0 empty_registry not_metrics
