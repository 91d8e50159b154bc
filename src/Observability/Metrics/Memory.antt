-- ===== src/Observability/Metrics/Memory.antt =====
-- A registry that keeps each increment: what the laws of the counters ask for can be had
-- (backend/services/observability/metrics.py).
use llm_inference_gpu_server.Common.{ℕ, ◌+◌, String, refl, List, [], ◌∷◌}
use llm_inference_gpu_server.Observability.Metrics.{Prometheus, PrometheusLaws, step}

abbrev pub Registry : Type 0
Registry = List (String × List String)

abbrev pub count : Registry → String → List String → ℕ
count [] name labels = 0
count ((n, ls) ∷ registry) name labels = step n ls name labels + count registry name labels

abbrev pub memory_prometheus : Prometheus Registry
memory_prometheus = record {
  inc = λ name labels m. (name, labels) ∷ m;
  dec = λ name m. m;
  observe = λ name labels seconds m. m;
  set = λ name n m. m;
}

abbrev pub memory_prometheus_laws : PrometheusLaws memory_prometheus
memory_prometheus_laws = record {
  count = count;
  inc_law = λ name labels m other_name other_labels. refl;
  observe_law = λ name labels seconds m other_name other_labels. refl;
}
