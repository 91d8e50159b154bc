-- ===== src/Errors/Object.antt =====
-- The error object of the API (backend/core/errors.py) and the response that carries it
-- (backend/middlewares/auth.py).
use llm_inference_gpu_server.Common.{ℕ, String, Option, none, some, List, [], ◌∷◌}
use llm_inference_gpu_server.Errors.{AppError}
use llm_inference_gpu_server.Json.{Json, null, str, obj, Fields, end, field, set_field}

-- `param`, which may be `None`.
abbrev or_null : Option String → Json
or_null none = null
or_null (some s) = str s

abbrev pub with_request_id : Option String → Fields → Fields
with_request_id none error = error
with_request_id (some id) error = set_field error "request_id" (str id)

-- `openai_error_object`
unfoldable pub openai_error_object :
    String → String → String → Option String → Option String → Fields
openai_error_object message code error_type param request_id =
    field "error"
      (obj (
        with_request_id request_id (
          field "message" (str message) (
            field "type" (str error_type)
              (field "param" (or_null param) (field "code" (str code) end))))))
      end

-- A `JSONResponse`
pub record JsonResponse : Type 0 where
  pub status_code : ℕ
  pub content : Fields
  pub headers : List (String × String)

abbrev pub request_id_header : Option String → List (String × String)
request_id_header none = []
request_id_header (some id) = ("x-request-id", id) ∷ []

-- `_app_error_response`
unfoldable pub app_error_response : Option String → AppError → JsonResponse
app_error_response request_id exc = record {
  status_code = exc.status_code;
  content = openai_error_object exc.message exc.code exc.error_type exc.param request_id;
  headers = ("x-error-code", exc.code) ∷ request_id_header request_id;
}
