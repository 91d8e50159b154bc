-- ===== src/Observability/Metrics/Counted.antt =====
-- What a request adds to the counters (backend/services/observability/metrics.py).
use llm_inference_gpu_server.Common.{
  ℕ, ◌+◌, String, ◌≡◌, ◌≢◌, refl, Option, List, [], ◌∷◌, inl, inr, if◌then◌else◌, ◌==◌, str_eq_ne,
  Bool-cases, arith,
}
use llm_inference_gpu_server.Common.Int.{ℤ}
use llm_inference_gpu_server.Text.{decimal}
use llm_inference_gpu_server.Errors.{Action}
use llm_inference_gpu_server.Observability.Metrics.{
  Prometheus, PrometheusLaws, Responses, step, inc_if, record_http_request, dispatch, status_of,
  code_of, or_unknown, path_template, http_requests_total, http_429_total, http_503_total,
}

-- What a counter of refusals with the status `n` gains.
abbrev pub gain : ℕ → String → ℕ → Option String → String → List String → ℕ
gain n counter status_code error_code name labels =
    if status_code == n then step counter (or_unknown error_code ∷ []) name labels else 0

-- What a counter gains by one request.
abbrev pub gained : String → String → ℕ → Option String → String → List String → ℕ
gained method path status_code error_code name labels =
    gain 503 http_503_total status_code error_code name labels
    + gain 429 http_429_total status_code error_code name labels
    + step http_requests_total (method ∷ path ∷ decimal status_code ∷ []) name labels

module _ {M : Type 0} {prometheus : Prometheus M} (laws : PrometheusLaws prometheus) where
  inc_if-count :
      (n : ℕ) (counter : String) (status_code : ℕ) (error_code : Option String) (m : M)
      (name : String) (labels : List String)
      → laws.count (inc_if prometheus n counter status_code error_code m) name labels
        ≡ gain n counter status_code error_code name labels + laws.count m name labels
  unfolding inc_if
  inc_if-count n counter status_code error_code m name labels =
      elim (Bool-cases (status_code == n)) [
        | inl e ↦ rw e (laws.inc_law counter (or_unknown error_code ∷ []) m name labels)
        | inr e ↦ rw e (omega arith)
      ]

  pub record_http_request-count :
      (method path : String) (status_code : ℕ) (elapsed : ℤ) (error_code : Option String) (m : M)
      (name : String) (labels : List String)
      → laws.count
          (record_http_request prometheus method path status_code elapsed error_code m)
          name
          labels
        ≡ gained method path status_code error_code name labels + laws.count m name labels
  unfolding record_http_request
  record_http_request-count method path status_code elapsed error_code m name labels =
      rw (inc_if-count, inc_if-count, laws.observe_law, laws.inc_law) (omega arith)

  -- A request to another path than `/metrics` is answered, or raises, as without the middleware. Of
  -- all counters, the one of its method, path and status gains one, and so does the one of its error
  -- code where the status is 429 or 503; the others stay.
  pub dispatch-Counted :
      {R S : Type 0} (responses : Responses R) (attribute : String → Option ℕ)
      (perf_counter : S → ℤ) (route_path : S → Option String) (method path : String)
      (call_next : Action S R) (s : S) (m : M)
      → path ≢ "/metrics"
      → let answer = call_next s in
        let after =
          dispatch responses attribute prometheus perf_counter route_path method path call_next
            (s, m) in
        let status_code = status_of responses attribute answer.0 in
        let error_code = code_of responses attribute answer.0 in
        let template = path_template (route_path answer.1) path in
        (after.0 ≡ answer.0)
        × (after.1.0 ≡ answer.1)
        × ((name : String) (labels : List String)
            → laws.count after.1.1 name labels
              ≡ gained method template status_code error_code name labels
                + laws.count m name labels)
  unfolding dispatch
  dispatch-Counted responses attribute perf_counter route_path method path call_next s m h =
      rw (str_eq_ne path "/metrics" h)
        (refl, refl, λ name labels. record_http_request-count method _ _ _ _ m name labels)
