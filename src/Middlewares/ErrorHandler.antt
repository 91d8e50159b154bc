-- ===== src/Middlewares/ErrorHandler.antt =====
-- The error handlers of the application (backend/middlewares/error_handler.py).
use llm_inference_gpu_server.Common.{
  ℕ, String, ◌≡◌, refl, subst, Bool, Option, none, some, ◌∷◌, if◌then◌else◌, ltb,
}
use llm_inference_gpu_server.Common.Dict.{get}
use llm_inference_gpu_server.Errors.{AppError, Exc, app, Result, ok, Action, ◌>>◌}
use llm_inference_gpu_server.Errors.Ends.{Ends, Ends-then, Ends-both}
use llm_inference_gpu_server.Errors.Object.{JsonResponse, openai_error_object, request_id_header}
use llm_inference_gpu_server.Json.{str, obj, Fields, get_field, set_field}
use llm_inference_gpu_server.Observability.Sentry.Capture.{
  SentrySdk, Request, capture_request_exception,
}
use llm_inference_gpu_server.Observability.Sentry.Capture.Sends.{SdkLaws}
use llm_inference_gpu_server.Observability.Sentry.Capture.Once.{
  Flagged, capture_request_exception-Ends, capture_request_exception-SameId,
}

-- `_error_response`
unfoldable pub error_response :
    Option String → ℕ → String → String → String → Option String → JsonResponse
error_response request_id status_code message code error_type param = record {
  status_code = status_code;
  content = openai_error_object message code error_type param request_id;
  headers = ("x-error-code", code) ∷ request_id_header request_id;
}

-- An exception by the class that its handler is installed for: an `AppError`, an `HTTPException` with
-- its status and its detail if that is a text, a `RequestValidationError`, or any other.
pub data Raised : Type 0 where
  app_error : AppError → Raised
  http_exception : ℕ → Option String → Raised
  request_validation : Raised
  unhandled : Exc → Raised

abbrev pub or_http_error : Option String → String
or_http_error none = "HTTP error"
or_http_error (some detail) = detail

abbrev pub http_error_type : ℕ → String
http_error_type status_code =
    if ltb status_code 500 then "invalid_request_error" else "server_error"

module _ {K : Type 0} where
  unfoldable pub respond :
      ℕ → String → String → String → Option String → Action (K × Request) JsonResponse
  respond status_code message code error_type param (k, request) = (
    ok (error_response request.request_id status_code message code error_type param),
    (k, request),
  )

  -- `http_error_handler`
  unfoldable pub http_error_handler : ℕ → Option String → Action (K × Request) JsonResponse
  http_error_handler status_code detail =
      respond status_code (or_http_error detail) "http_error" (http_error_type status_code) none

  -- `validation_error_handler`
  unfoldable pub validation_error_handler : Action (K × Request) JsonResponse
  validation_error_handler =
      respond 400 "Invalid request payload" "bad_request" "invalid_request_error" none

module _ {K : Type 0} (is_word : ℕ → Bool) (sdk : SentrySdk K) (enabled : Bool) where
  -- `app_error_handler`
  unfoldable pub app_error_handler : AppError → Action (K × Request) JsonResponse
  app_error_handler exc =
      capture_request_exception is_word sdk enabled (app exc) none none
      >> respond exc.status_code exc.message exc.code exc.error_type exc.param

  -- `unhandled_error_handler`
  unfoldable pub unhandled_error_handler : Exc → Action (K × Request) JsonResponse
  unhandled_error_handler exc =
      capture_request_exception is_word sdk enabled exc none none
      >> respond 500 "Internal server error" "internal_server_error" "server_error" none

  -- `install_error_handlers`: the handler of each class.
  unfoldable pub handle : Raised → Action (K × Request) JsonResponse
  handle (app_error exc) = app_error_handler exc
  handle (http_exception status_code detail) = http_error_handler status_code detail
  handle request_validation = validation_error_handler
  handle (unhandled exc) = unhandled_error_handler exc

-- What the client is told: the status, the code and the message.
abbrev pub told : Raised → ℕ × String × String
told (app_error exc) = (exc.status_code, exc.code, exc.message)
told (http_exception status_code detail) = (status_code, "http_error", or_http_error detail)
told request_validation = (400, "bad_request", "Invalid request payload")
told (unhandled exc) = (500, "internal_server_error", "Internal server error")

-- The response tells it in its status, its header and its body, with the identifier of the request.
pub record Tells (request_id : Option String) (t : ℕ × String × String) (response : JsonResponse)
    : Type 0 where
  pub status : response.status_code ≡ t.0
  pub code_header : get response.headers "x-error-code" ≡ some t.1
  pub id_header : get response.headers "x-request-id" ≡ request_id
  pub body :
      (error : Fields) × (get_field response.content "error" ≡ some (obj error))
      × (get_field error "code" ≡ some (str t.1))
      × (get_field error "message" ≡ some (str t.2))

error_response-Tells :
    (request_id : Option String) (status_code : ℕ) (message code error_type : String)
    (param : Option String)
    → Tells request_id
        (status_code, code, message)
        (error_response request_id status_code message code error_type param)
unfolding error_response openai_error_object get get_field set_field
error_response-Tells none status_code message code error_type param = record {
  status = refl;
  code_header = refl;
  id_header = refl;
  body = (_, refl, refl, refl);
}
error_response-Tells (some id) status_code message code error_type param = record {
  status = refl;
  code_header = refl;
  id_header = refl;
  body = (_, refl, refl, refl);
}

module _ {K : Type 0} {sdk : SentrySdk K} (is_word : ℕ → Bool) (laws : SdkLaws sdk) where
  -- A response that is told after a report.
  abbrev pub Answers :
      Option String → ℕ → ℕ × String × String → Result JsonResponse × (K × Request) → Type 0
  Answers request_id n t =
      Ends (λ response w. Tells request_id t response × Flagged is_word laws n w) (λ _ _. ⊥)

  respond-Answers :
      (n status_code : ℕ) (message code error_type : String) (param : Option String)
      (w : K × Request)
      → Flagged is_word laws n w
      → Answers w.1.request_id n
          (status_code, code, message)
          (respond status_code message code error_type param w)
  unfolding respond
  respond-Answers n status_code message code error_type param (k, request) h = record {
    holds = (error_response-Tells request.request_id status_code message code error_type param, h);
  }

  reported-Answers :
      (enabled : Bool) (exc : Exc) (n status_code : ℕ) (message code error_type : String)
      (param : Option String) (w : K × Request)
      → Flagged is_word laws n w
      → Answers w.1.request_id n
          (status_code, code, message)
          ((capture_request_exception is_word sdk enabled exc none none
              >> respond status_code message code error_type param)
            w)
  reported-Answers enabled exc n status_code message code error_type param (k, request) h =
      Ends-then _ _ (k, request)
        (Ends-both _
          (capture_request_exception-Ends is_word laws enabled exc none none n k request h)
          (capture_request_exception-SameId is_word laws enabled exc none none k request))
        (λ _ w g.
          subst
            (λ id.
              Answers id n (status_code, code, message)
                (respond status_code message code error_type param w))
            g.1 (respond-Answers n status_code message code error_type param w g.0))
        (λ _ _ x. x.0)

  -- Each exception of a request is answered, whatever Sentry does: with the status, the code and the
  -- message of its class in the status, the header `x-error-code` and the body, with the identifier of
  -- the request, and with one event to Sentry at most for the request.
  pub handle-Answers :
      (enabled : Bool) (r : Raised) (n : ℕ) (w : K × Request)
      → Flagged is_word laws n w
      → Answers w.1.request_id n (told r) (handle is_word sdk enabled r w)
  unfolding handle app_error_handler http_error_handler validation_error_handler
      unhandled_error_handler
  handle-Answers enabled (app_error exc) n w h = reported-Answers enabled (app exc) n _ _ _ _ _ w h
  handle-Answers enabled (http_exception status_code detail) n w h = respond-Answers n _ _ _ _ _ w h
  handle-Answers enabled request_validation n w h = respond-Answers n _ _ _ _ _ w h
  handle-Answers enabled (unhandled exc) n w h = reported-Answers enabled exc n _ _ _ _ _ w h
