-- ===== src/Observability/Metrics.antt =====
-- The metrics of the gateway (backend/services/observability/metrics.py), over the client of
-- Prometheus, which is not part of the repository: `PrometheusLaws` states what its documentation says
-- of a counter.
pub mod Counted
pub mod Memory
use llm_inference_gpu_server.Common.{
  ℕ, suc, ◌+◌, String, ◌≡◌, ◌≢◌, refl, Bool, true, false, Option, none, some, List, [], ◌∷◌,
  if◌then◌else◌, str_eq, ◌==◌,
}
use llm_inference_gpu_server.Common.Int.{ℤ, pos, ◌-ℤ◌}
use llm_inference_gpu_server.Common.Dict.{get}
use llm_inference_gpu_server.Text.{decimal}
use llm_inference_gpu_server.Errors.{Exc, app, other, Result, ok, raise, Action}
use llm_inference_gpu_server.Errors.Parts.{on_first}

-- A series of samples is known by the name of its metric and the values of its labels. A number of
-- seconds is given in microseconds.
pub record Prometheus (M : Type 0) : Type 0 where
  pub inc : String → List String → M → M
  pub dec : String → M → M
  pub observe : String → List String → ℤ → M → M
  pub set : String → ℕ → M → M

-- Does one series have the name and the labels of another?
unfoldable pub labels_eq : List String → List String → Bool
labels_eq [] [] = true
labels_eq (a ∷ s) (b ∷ t) = let rest = labels_eq s t in if str_eq a b then rest else false
labels_eq _ _ = false

unfoldable pub series_eq : String → List String → String → List String → Bool
series_eq name labels other_name other_labels =
    if str_eq name other_name then labels_eq labels other_labels else false

-- What an increment of one counter adds to another.
unfoldable pub step : String → List String → String → List String → ℕ
step name labels other_name other_labels =
    if series_eq name labels other_name other_labels then 1 else 0

pub record PrometheusLaws {M : Type 0} (prometheus : Prometheus M) : Type 0 where
  pub count : M → String → List String → ℕ
  pub inc_law :
      (name : String) (labels : List String) (m : M) (other_name : String)
      (other_labels : List String)
      → count (prometheus.inc name labels m) other_name other_labels
        ≡ step name labels other_name other_labels + count m other_name other_labels
  pub observe_law :
      (name : String) (labels : List String) (seconds : ℤ) (m : M) (other_name : String)
      (other_labels : List String)
      → count (prometheus.observe name labels seconds m) other_name other_labels
        ≡ count m other_name other_labels

-- The counters and the histogram of HTTP requests.
abbrev pub http_requests_total : String
http_requests_total = "gpu_inference_http_requests_total"

abbrev pub http_request_latency_seconds : String
http_request_latency_seconds = "gpu_inference_http_request_duration_seconds"

abbrev pub http_429_total : String
http_429_total = "gpu_inference_http_429_total"

abbrev pub http_503_total : String
http_503_total = "gpu_inference_http_503_total"

abbrev pub vllm_upstream_errors_total : String
vllm_upstream_errors_total = "gpu_inference_vllm_upstream_errors_total"

-- `error_code or "unknown"`
unfoldable pub or_unknown : Option String → String
or_unknown none = "unknown"
or_unknown (some code) = if str_eq code "" then "unknown" else code

-- What the middleware reads of a response.
pub record Responses (R : Type 0) : Type 0 where
  pub status_code : R → ℕ
  pub headers : R → List (String × String)
  pub set_header : R → String → String → R

-- `response.headers[name] = value` sets that header, and nothing else.
pub record HeaderLaws {R : Type 0} (responses : Responses R) : Type 0 where
  pub self_law :
      (response : R) (name value : String)
      → get (responses.headers (responses.set_header response name value)) name ≡ some value
  pub other_law :
      (response : R) (name value other_name : String)
      → other_name ≢ name
      → get (responses.headers (responses.set_header response name value)) other_name
        ≡ get (responses.headers response) other_name
  pub status_law :
      (response : R) (name value : String)
      → responses.status_code (responses.set_header response name value)
        ≡ responses.status_code response

module _ {M : Type 0} (prometheus : Prometheus M) where
  -- `record_vllm_upstream_error`
  unfoldable pub record_vllm_upstream_error : String → M → M
  record_vllm_upstream_error error_code =
      prometheus.inc vllm_upstream_errors_total (error_code ∷ [])

  -- `record_redis_failure`
  unfoldable pub record_redis_failure : M → M
  record_redis_failure = prometheus.inc "gpu_inference_redis_failures_total" []

  -- `record_clickhouse_flush_failure`
  unfoldable pub record_clickhouse_flush_failure : M → M
  record_clickhouse_flush_failure =
      prometheus.inc "gpu_inference_clickhouse_flush_failures_total" []

  -- `record_stream_started` and `record_stream_finished`
  unfoldable pub record_stream_started : M → M
  record_stream_started m = prometheus.inc "gpu_inference_active_streams" [] m

  unfoldable pub record_stream_finished : M → M
  record_stream_finished m = prometheus.dec "gpu_inference_active_streams" m

  -- `record_stream_ttft`
  unfoldable pub record_stream_ttft : Option String → ℤ → M → M
  record_stream_ttft model ttft =
      prometheus.observe "gpu_inference_stream_ttft_seconds" (or_unknown model ∷ []) ttft

  -- `update_runtime_gauges`, on the size of the collector's queue, if it has one.
  unfoldable pub update_runtime_gauges : Option ℕ → M → M
  update_runtime_gauges none m = m
  update_runtime_gauges (some qsize) m = prometheus.set "gpu_inference_analytics_queue_size" qsize m

  -- `if status_code == n: counter.labels(error_code=...).inc()`
  unfoldable pub inc_if : ℕ → String → ℕ → Option String → M → M
  inc_if n counter status_code error_code m =
      if status_code == n then prometheus.inc counter (or_unknown error_code ∷ []) m else m

  -- `record_http_request`
  unfoldable pub record_http_request : String → String → ℕ → ℤ → Option String → M → M
  record_http_request method path status_code elapsed error_code m =
      let counted =
        prometheus.inc http_requests_total (method ∷ path ∷ decimal status_code ∷ []) m in
      let observed =
        prometheus.observe http_request_latency_seconds (method ∷ path ∷ []) elapsed counted in
      inc_if 503 http_503_total status_code error_code
        (inc_if 429 http_429_total status_code error_code observed)

-- `_path_template`, on the path of the route that was matched, if there is one.
unfoldable pub path_template : Option String → String → String
path_template none path = path
path_template (some template) path = template

-- `int(getattr(exc, "status_code", 500))`; an exception that is not an `AppError` has the attribute
-- that it is given here.
unfoldable pub exc_status : (String → Option ℕ) → Exc → ℕ
exc_status attribute (app e) = e.status_code
exc_status attribute (other code text) = elim (attribute text) [ none ↦ 500 | some n ↦ n ]

-- `getattr(exc, "code", None)`
unfoldable pub exc_code : Exc → Option String
exc_code (app e) = some e.code
exc_code (other code text) = code

module _ {R : Type 0} (responses : Responses R) (attribute : String → Option ℕ) where
  -- What the `finally` of `dispatch` finds in `status_code` and `error_code`.
  unfoldable pub status_of : Result R → ℕ
  status_of (ok response) = responses.status_code response
  status_of (raise e) = exc_status attribute e

  unfoldable pub code_of : Result R → Option String
  code_of (ok response) = get (responses.headers response) "x-error-code"
  code_of (raise e) = exc_code e

  -- `MetricsMiddleware.dispatch`: `perf_counter` and the route that is matched are read off the state
  -- of the application.
  module _ {S M : Type 0} (prometheus : Prometheus M) (perf_counter : S → ℤ)
      (route_path : S → Option String) where
    unfoldable pub dispatch : String → String → Action S R → Action (S × M) R
    dispatch method path call_next (s, m) =
        if str_eq path "/metrics"
        then on_first call_next (s, m)
        else let (r, t) = call_next s in
          (
            r,
            (
              t,
              record_http_request prometheus method (path_template (route_path t) path)
                  (status_of r) (perf_counter t -ℤ perf_counter s) (code_of r) m,
            ),
          )
