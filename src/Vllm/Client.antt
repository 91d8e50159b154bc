-- ===== src/Vllm/Client.antt =====
-- `VLLMClient` (backend/services/vllm/client.py) and its errors (backend/services/vllm/errors.py), over
-- a client of HTTP, which is not part of the repository.
pub mod Mapped
pub mod Streamed
mod Tests
use llm_inference_gpu_server.Common.{
  ⊤, ℕ, String, Bool, true, false, Option, none, some, List, [], ◌∷◌, if◌then◌else◌, leb,
}
use llm_inference_gpu_server.Text.{Text, decimal}
use llm_inference_gpu_server.Errors.{
  AppError, Exc, app, Result, ok, raise, Action, pure, throw, ◌>>=◌, ◌>>◌,
}
use llm_inference_gpu_server.Errors.Parts.{on_second}
use llm_inference_gpu_server.Json.{Json, null, bool, int, float, str, arr, obj, Fields, set_field}
use llm_inference_gpu_server.Observability.Metrics.{Prometheus, record_vllm_upstream_error}
use Prim.Native.String

-- A response: its status, and its body as JSON, `none` where `json()` raises a `ValueError`.
pub record Response : Type 0 where
  pub status_code : ℕ
  pub json : Option Json

-- What a request comes to: an answer, a `TimeoutException`, another `HTTPError`, or an exception of
-- another class.
pub data Reply (A : Type 0) : Type 0 where
  answered : A → Reply A
  timed_out : Reply A
  http_error : Reply A
  failed : Exc → Reply A

-- A streamed response: its status, its lines and what comes after the last.
pub record StreamedResponse : Type 0 where
  pub status_code : ℕ
  pub lines : List Text
  pub ending : Reply ⊤

-- `httpx.AsyncClient`, over its state `H`.
pub record HttpClient (H : Type 0) : Type 0 where
  pub get : String → H → Reply Response × H
  pub post : String → Fields → H → Reply Response × H
  pub stream : String → String → Fields → H → Reply StreamedResponse × H

abbrev pub upstream_timeout : AppError
upstream_timeout = record {
  message = "vLLM upstream timed out";
  code = "upstream_timeout";
  status_code = 504;
  error_type = "server_error";
  param = none;
}

abbrev pub upstream_status : ℕ → AppError
upstream_status status_code = record {
  message = String.◌++◌ "vLLM upstream returned HTTP " (decimal status_code);
  code = "upstream_error";
  status_code = 502;
  error_type = "server_error";
  param = none;
}

abbrev pub invalid_response : AppError
invalid_response = record {
  message = "vLLM upstream returned an invalid response";
  code = "upstream_invalid_response";
  status_code = 502;
  error_type = "server_error";
  param = none;
}

abbrev pub request_failed : AppError
request_failed = record {
  message = "vLLM upstream request failed";
  code = "upstream_error";
  status_code = 502;
  error_type = "server_error";
  param = none;
}

-- `if line: yield line`
unfoldable pub nonempty_lines : List Text → List Text
nonempty_lines [] = []
nonempty_lines ([] ∷ lines) = nonempty_lines lines
nonempty_lines ((c ∷ s) ∷ lines) = (c ∷ s) ∷ nonempty_lines lines

-- A request is sent, and `handle` deals with its reply.
unfoldable pub request :
    {H M A B : Type 0} → (H → Reply A × H) → (Reply A → Action M B) → Action (H × M) B
request send handle (h, m) = let (reply, h') = send h in on_second (handle reply) (h', m)

-- `raise f()`
unfoldable pub raise_from : {M A : Type 0} → Action M AppError → Action M A
raise_from make_error = make_error >>= λ e. throw (app e)

module _ {M : Type 0} (prometheus : Prometheus M) where
  unfoldable pub counted : String → AppError → Action M AppError
  counted code e m = (ok e, record_vllm_upstream_error prometheus code m)

  -- `timeout_error`
  unfoldable pub timeout_error : Action M AppError
  timeout_error = counted "upstream_timeout" upstream_timeout

  -- `upstream_status_error`
  unfoldable pub upstream_status_error : ℕ → Action M AppError
  upstream_status_error status_code = counted "upstream_error" (upstream_status status_code)

  -- `invalid_response_error`
  unfoldable pub invalid_response_error : Action M AppError
  invalid_response_error = counted "upstream_invalid_response" invalid_response

  -- `_raise_for_upstream_status`
  unfoldable pub raise_for_upstream_status : ℕ → Action M ⊤
  raise_for_upstream_status status_code =
      if leb 400 status_code then raise_from (upstream_status_error status_code) else pure tt

  -- The `except` clauses around a request, then the test of the status.
  unfoldable pub checked : Reply Response → Action M Response
  checked (answered response) = raise_for_upstream_status response.status_code >> pure response
  checked timed_out = raise_from timeout_error
  checked http_error = throw (app request_failed)
  checked (failed e) = throw e

  -- `parsed`, which has to be a `dict`.
  unfoldable pub parsed : Option Json → Action M Fields
  parsed (some (obj fields)) = pure fields
  parsed _ = raise_from invalid_response_error

  -- What is returned of a reply.
  unfoldable pub get_object : Reply Response → Action M Fields
  get_object reply = checked reply >>= λ response. parsed response.json

  -- `list_models`
  unfoldable pub list_models : {H : Type 0} → HttpClient H → Action (H × M) Fields
  list_models client = request (client.get "/v1/models") get_object

  -- `create_chat_completion`, with `_post_chat_completion`
  unfoldable pub create_chat_completion :
      {H : Type 0} → HttpClient H → Fields → Action (H × M) Fields
  create_chat_completion client payload =
      request (client.post "/v1/chat/completions" payload) get_object

  -- How the generator ends after its last line.
  unfoldable pub ended : Reply ⊤ → Action M ⊤
  ended (answered _) = pure tt
  ended timed_out = raise_from timeout_error
  ended http_error = throw (app request_failed)
  ended (failed e) = throw e

  -- The lines that are yielded, and how the generator ends.
  unfoldable pub streamed : Reply StreamedResponse → M → List Text × (Result ⊤ × M)
  streamed (answered response) m =
      if leb 400 response.status_code
      then ([], raise_from (upstream_status_error response.status_code) m)
      else (nonempty_lines response.lines, ended response.ending m)
  streamed timed_out m = ([], raise_from timeout_error m)
  streamed http_error m = ([], throw (app request_failed) m)
  streamed (failed e) m = ([], throw e m)

  -- `stream_chat_completion`, read to its end.
  unfoldable pub stream_chat_completion :
      {H : Type 0} → HttpClient H → Fields → H × M → (List Text × (Result ⊤ × M)) × H
  stream_chat_completion client payload (h, m) =
      let (reply, h') =
        client.stream "POST" "/v1/chat/completions" (set_field payload "stream" (bool true)) h in
      (streamed reply m, h')
