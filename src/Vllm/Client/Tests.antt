-- ===== src/Vllm/Client/Tests.antt =====
-- Replies of vLLM, good and bad (backend/services/vllm/client.py).
use llm_inference_gpu_server.Common.{ℕ, none, [], ◌∷◌}
use llm_inference_gpu_server.Text.{codes}
use llm_inference_gpu_server.Observability.Metrics.Memory.{Registry}
use llm_inference_gpu_server.Vllm.Client.{Response, StreamedResponse, answered, HttpClient}

abbrev overloaded : Response
overloaded = record { status_code = 503; json = none }

abbrev lines : StreamedResponse
lines = record {
  status_code = 200;
  lines = codes "data: {}" ∷ [] ∷ codes "data: [DONE]" ∷ [];
  ending = answered tt;
}

-- The state is the number of requests that were sent.
abbrev client : HttpClient ℕ
client = record {
  get = λ path n. (answered overloaded, 1);
  post = λ path payload n. (answered overloaded, 1);
  stream = λ method path payload n. (answered lines, 1);
}

abbrev empty_registry : Registry
empty_registry = []
