-- ===== src/Middlewares/Stack.antt =====
-- The middlewares in the order in which `create_app` adds them (backend/main.py): the metrics see a
-- request first, then the identifier is attached, then the key is looked at.
use llm_inference_gpu_server.Common.{
  ℕ, ◌+◌, String, ◌≡◌, ◌≢◌, refl, sym, ◌∙◌, ap, true, false, Option, none, some, List, [], ◌∷◌,
  arith,
}
use llm_inference_gpu_server.Common.Int.{ℤ}
use llm_inference_gpu_server.Common.Dict.{get, put, get-put_self, get-put_ne}
use llm_inference_gpu_server.Text.{Text, codes, decimal, after_prefix, text_eq}
use llm_inference_gpu_server.Errors.{ok, Action, throw}
use llm_inference_gpu_server.Errors.Object.{JsonResponse, app_error_response}
use llm_inference_gpu_server.Auth.{AuthContext, missing_api_key}
use llm_inference_gpu_server.Auth.Middleware.{
  is_protected_path, is_any_under, is_under, extract_bearer_token, identify,
}
use llm_inference_gpu_server.Auth.Middleware
use llm_inference_gpu_server.Middlewares.RequestId.{Scope, request_id_or, reset}
use llm_inference_gpu_server.Middlewares.RequestId
use llm_inference_gpu_server.Observability.Metrics.{
  Prometheus, PrometheusLaws, Responses, HeaderLaws, step, path_template, http_requests_total,
  status_of, code_of,
}
use llm_inference_gpu_server.Observability.Metrics
use llm_inference_gpu_server.Observability.Metrics.Counted.{gained, dispatch-Counted}

-- A `JSONResponse` as the middlewares see it.
abbrev pub json_responses : Responses JsonResponse
json_responses = record {
  status_code = λ r. r.status_code;
  headers = λ r. r.headers;
  set_header = λ r name value. record r { headers = put r.headers name value };
}

abbrev pub json_header_laws : HeaderLaws json_responses
json_header_laws = record {
  self_law = λ r name value. get-put_self r.headers name value;
  other_law =
      λ r name value other_name h. get-put_ne r.headers name other_name value (λ e. h (sym e));
  status_law = λ r name value. refl;
}

abbrev pub IsRefusal : String → JsonResponse → Type 0
IsRefusal request_id response =
    (response.status_code ≡ 401)
    × (get response.headers "x-error-code" ≡ some "missing_api_key")
    × (get response.headers "x-request-id" ≡ some request_id)

module _ {S M : Type 0} (prometheus : Prometheus M) (perf_counter : S → ℤ)
    (route_path : S → Option String) (attribute : String → Option ℕ)
    (authenticate : Text → Action (S × Scope) AuthContext)
    (route : Option AuthContext → Action (S × Scope) JsonResponse) where
  -- The middleware of the keys, which reads the identifier of the request from its state.
  unfoldable pub with_key : String → Option Text → Action (S × Scope) JsonResponse
  with_key path authorization w =
      Middleware.dispatch authenticate (app_error_response w.1.request_id) route (codes path)
        authorization w

  -- The application, from the outermost middleware to the route.
  unfoldable pub application :
      String → String → Option String → Option Text → String → Action ((S × Scope) × M) JsonResponse
  application method path id_header authorization generated =
      Metrics.dispatch json_responses attribute prometheus (λ w. perf_counter w.0)
        (λ w. route_path w.0) method path
        (RequestId.dispatch json_responses id_header generated (with_key path authorization))

  with_key-refused :
      (path : String) (authorization : Option Text) (w : S × Scope)
      → is_protected_path (codes path) ≡ true
      → extract_bearer_token authorization ≡ none
      → with_key path authorization w ≡ (ok (app_error_response w.1.request_id missing_api_key), w)
  unfolding with_key Middleware.dispatch Middleware.respond identify throw
  with_key-refused path authorization w p k = rw (p, k) refl

  abbrev refusal : String → JsonResponse
  refusal request_id =
      json_responses.set_header (app_error_response (some request_id) missing_api_key)
        "x-request-id" request_id

  tagged-refused :
      (path : String) (id_header : Option String) (authorization : Option Text) (generated : String)
      (s : S) (scope : Scope)
      → is_protected_path (codes path) ≡ true
      → extract_bearer_token authorization ≡ none
      → let id = request_id_or id_header generated in
        RequestId.dispatch json_responses id_header generated
          (with_key path authorization)
          (s, scope)
        ≡ (
          ok (refusal id),
          (s, record { request_id = some id; request_id_context = scope.request_id_context }),
        )
  tagged-refused path id_header authorization generated s scope p k =
      RequestId.dispatch-answered json_responses id_header generated (with_key path authorization)
        (s, scope) _ _ _ (with_key-refused path authorization _ p k)

  metrics_open : is_protected_path (codes "/metrics") ≡ false
  unfolding is_any_under is_under after_prefix text_eq
  metrics_open = refl

  protected_ne_metrics : (path : String) → is_protected_path (codes path) ≡ true → path ≢ "/metrics"
  protected_ne_metrics path p e =
      absurd (cc (metrics_open, ap (λ x. is_protected_path (codes x)) e, p))

  refusal-IsRefusal : (request_id : String) → IsRefusal request_id (refusal request_id)
  unfolding app_error_response get put
  refusal-IsRefusal request_id = (refl, refl, refl)

  -- A request to a protected path without a bearer token never reaches its route and changes nothing
  -- of the application. It is answered with 401 and `missing_api_key`, carries its identifier, and is
  -- counted once, under its method, its path and 401; no other counter moves.
  pub application-Anonymous :
      (laws : PrometheusLaws prometheus) (method path : String) (id_header : Option String)
      (authorization : Option Text) (generated : String) (s : S) (scope : Scope) (m : M)
      → is_protected_path (codes path) ≡ true
      → extract_bearer_token authorization ≡ none
      → let id = request_id_or id_header generated in
        let after = application method path id_header authorization generated ((s, scope), m) in
        let template = path_template (route_path s) path in
        ((response : JsonResponse) × (after.0 ≡ ok response) × IsRefusal id response)
        × (after.1.0
            ≡ (s, record { request_id = some id; request_id_context = scope.request_id_context }))
        × ((name : String) (labels : List String)
            → laws.count after.1.1 name labels
              ≡ step http_requests_total (method ∷ template ∷ decimal 401 ∷ []) name labels
                + laws.count m name labels)
  unfolding application status_of app_error_response
  application-Anonymous laws method path id_header authorization generated s scope m p k =
      let call =
        RequestId.dispatch json_responses id_header generated (with_key path authorization) in
      let counted =
        dispatch-Counted laws json_responses attribute (λ (w : S × Scope). perf_counter w.0)
          (λ (w : S × Scope). route_path w.0) method path call (s, scope) m
          (protected_ne_metrics path p) in
      let e = tagged-refused path id_header authorization generated s scope p k in
      (
        (refusal _, counted.0 ∙ ap (λ x. x.0) e, refusal-IsRefusal _),
        counted.1 ∙ ap (λ x. x.1) e,
        λ name labels.
            counted.2 name labels
            ∙ ap
                (λ x.
                  gained method (path_template (route_path x.1.0) path)
                    (status_of json_responses attribute x.0) (code_of json_responses attribute x.0)
                    name labels
                  + laws.count m name labels)
                e
            ∙ omega arith,
      )
