-- ===== src/Vllm/Client/Mapped.antt =====
-- What the client of vLLM makes of each reply (backend/services/vllm/client.py).
use llm_inference_gpu_server.Common.{
  ◌≤◌, ◌<◌, String, ◌≡◌, ◌≢◌, refl, Option, none, some, inl, inr, leb, Bool-cases, arith,
}
use llm_inference_gpu_server.Errors.{Exc, app, Result, pure, throw, ◌>>=◌, ◌>>◌}
use llm_inference_gpu_server.Errors.Parts.{Ends-on_second}
use llm_inference_gpu_server.Errors.Ends.{Ends}
use llm_inference_gpu_server.Json.{Json, null, bool, int, float, str, arr, obj, Fields}
use llm_inference_gpu_server.Observability.Metrics.{Prometheus, record_vllm_upstream_error}
use llm_inference_gpu_server.Vllm.Client.{
  Response, Reply, answered, timed_out, http_error, failed, HttpClient, upstream_timeout,
  upstream_status, invalid_response, request_failed, counted, timeout_error, upstream_status_error,
  invalid_response_error, raise_from, raise_for_upstream_status, checked, parsed, request,
  get_object, list_models,
}

-- The exception that a reply is turned into, and the code that it is counted under, if it is.
pub data Failure : Reply Response → Exc → Option String → Type 0 where
  timeout : Failure timed_out (app upstream_timeout) (some "upstream_timeout")
  transport : Failure http_error (app request_failed) none
  crash : (e : Exc) → Failure (failed e) e none
  status :
      (response : Response)
      → 400 ≤ response.status_code
      → Failure
          (answered response)
          (app (upstream_status response.status_code))
          (some "upstream_error")
  body :
      (response : Response)
      → response.status_code < 400
      → ((fields : Fields) → response.json ≢ some (obj fields))
      → Failure (answered response) (app invalid_response) (some "upstream_invalid_response")

-- The reply has a good status and a JSON object as its body.
abbrev pub Good : Reply Response → Fields → Type 0
Good reply fields =
    (response : Response) × (reply ≡ answered response)
    × (response.status_code < 400)
    × (response.json ≡ some (obj fields))

module _ {M : Type 0} (prometheus : Prometheus M) where
  abbrev pub recorded : Option String → M → M
  recorded none m = m
  recorded (some code) m = record_vllm_upstream_error prometheus code m

  -- What a reply comes to.
  abbrev pub Mapped : Reply Response → M → Result Fields × M → Type 0
  Mapped reply m =
      Ends (λ fields n. Good reply fields × (n ≡ m))
        (λ e n. (code : Option String) × Failure reply e code × (n ≡ recorded code m))

  invalid-Mapped :
      (response : Response) (m : M)
      → response.status_code < 400
      → ((fields : Fields) → response.json ≢ some (obj fields))
      → Mapped (answered response) m (raise_from (invalid_response_error prometheus) m)
  unfolding raise_from invalid_response_error counted throw ◌>>=◌
  invalid-Mapped response m h n = record {
    holds = (some "upstream_invalid_response", body response h n, refl);
  }

  parsed-Mapped :
      (response : Response) (json : Option Json) (m : M)
      → response.status_code < 400
      → response.json ≡ json
      → Mapped (answered response) m (parsed prometheus json m)
  unfolding parsed pure
  parsed-Mapped response (some (obj fields)) m h e = record {
    holds = ((response, refl, h, e), refl);
  }
  parsed-Mapped response none m h e = invalid-Mapped response m h (λ f g. cc)
  parsed-Mapped response (some null) m h e = invalid-Mapped response m h (λ f g. cc)
  parsed-Mapped response (some (bool b)) m h e = invalid-Mapped response m h (λ f g. cc)
  parsed-Mapped response (some (int n)) m h e = invalid-Mapped response m h (λ f g. cc)
  parsed-Mapped response (some (float n b)) m h e = invalid-Mapped response m h (λ f g. cc)
  parsed-Mapped response (some (str s)) m h e = invalid-Mapped response m h (λ f g. cc)
  parsed-Mapped response (some (arr items)) m h e = invalid-Mapped response m h (λ f g. cc)

  get_object-Mapped :
      (reply : Reply Response) (m : M) → Mapped reply m (get_object prometheus reply m)
  unfolding get_object checked raise_for_upstream_status raise_from timeout_error
      upstream_status_error counted pure throw ◌>>=◌ ◌>>◌
  get_object-Mapped timed_out m = record { holds = (some "upstream_timeout", timeout, refl) }
  get_object-Mapped http_error m = record { holds = (none, transport, refl) }
  get_object-Mapped (failed e) m = record { holds = (none, crash e, refl) }
  get_object-Mapped (answered response) m = elim (Bool-cases (leb 400 response.status_code)) [
    | inl h ↦
        rw h (record { holds = (some "upstream_error", status response (ground arith), refl) })
    | inr h ↦ rw h (parsed-Mapped response response.json m (ground arith) refl)
  ]

  module _ {H : Type 0} where
    -- The same of a request, which leaves the client of HTTP as its reply does.
    abbrev pub RequestMapped : Reply Response × H → M → Result Fields × (H × M) → Type 0
    RequestMapped (reply, h') m =
        Ends (λ fields w. (Good reply fields × (w.1 ≡ m)) × (w.0 ≡ h'))
          (λ e w.
            ((code : Option String) × Failure reply e code × (w.1 ≡ recorded code m)) × (w.0 ≡ h'))

    request-Mapped :
        (send : H → Reply Response × H) (h : H) (m : M)
        → RequestMapped (send h) m (request send (get_object prometheus) (h, m))
    unfolding request
    request-Mapped send h m =
        let (reply, h') = send h in
        Ends-on_second (get_object prometheus reply) h' m (get_object-Mapped reply m)

    pub list_models-Mapped :
        (client : HttpClient H) (h : H) (m : M)
        → RequestMapped (client.get "/v1/models" h) m (list_models prometheus client (h, m))
    unfolding list_models
    list_models-Mapped client h m = request-Mapped (client.get "/v1/models") h m
