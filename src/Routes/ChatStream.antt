-- ===== src/Routes/ChatStream.antt =====
-- `_stream_response` (backend/api/routes/chat_completions.py), for a request that was admitted. The
-- time of the first token, the closing of the iterators and the reports to Prometheus and Sentry are
-- left out.
pub mod Balance
use llm_inference_gpu_server.Common.{
  ⊤, String, Bool, true, false, Option, none, some, List, [], ◌∷◌, ◌++◌, if◌then◌else◌, str_eq,
}
use llm_inference_gpu_server.Errors.{
  Exc, other, Result, ok, raise, Action, pure, throw, ◌>>=◌, ◌>>◌,
}
use llm_inference_gpu_server.Errors.Parts.{on_first, on_second}
use llm_inference_gpu_server.Text.{Text, codes, text_eq, strip, after_prefix}
use llm_inference_gpu_server.Json.{Json, arr, obj, str, Items, nil, cons, Fields, get_field}
use llm_inference_gpu_server.Inference.Tokens.{TokenEstimator, UsageRecord}
use llm_inference_gpu_server.Inference.Tokens.Usage.{usage_from_stream_text, text_content}
use llm_inference_gpu_server.Inference.Ports.{Ports}
use llm_inference_gpu_server.Routes.ChatCompletions.{AppState, Admitted, account, error_code_of}

abbrev delta_content : Option Json → Text
delta_content (some (obj delta)) = text_content (get_field delta "content")
delta_content _ = []

-- `for choice in choices`, and the join of the chunks.
unfoldable pub join_deltas : Items → Text
join_deltas nil = []
join_deltas (cons (obj choice) items) =
    delta_content (get_field choice "delta") ++ join_deltas items
join_deltas (cons _ items) = join_deltas items

abbrev choices_text : Option Json → Text
choices_text (some (arr choices)) = join_deltas choices
choices_text _ = []

-- What an event carries: nothing where it is not JSON. `get` of another value than an object raises
-- `AttributeError`.
abbrev parsed_text : Option Json → Result Text
parsed_text none = ok []
parsed_text (some (obj parsed)) = ok (choices_text (get_field parsed "choices"))
parsed_text (some value) = raise (other none "object has no attribute 'get'")

-- `stream_delta_text`; `loads` is `json.loads`, `none` where it raises `JSONDecodeError`.
unfoldable pub stream_delta_text : (Text → Option Json) → Text → Result Text
stream_delta_text loads event = data_text (after_prefix (codes "data: ") event)
  where
    data_text : Option Text → Result Text
    data_text none = ok []
    data_text (some rest) =
        let parsed = parsed_text (loads (strip rest)) in
        if text_eq (strip rest) (codes "[DONE]") then ok [] else parsed

-- What the loop meets: the end, an exception, or an event. With an event come whether the client
-- was found to be gone before it, and whether the server closes the generator after it.
pub data Upstream : Type 0 where
  exhausted : Upstream
  broken : Exc → Upstream
  event : (is_disconnected : Bool) → Text → (is_closed : Bool) → Upstream → Upstream

-- The variables after the loop, and what was yielded.
pub record Pumped : Type 0 where
  pub completion_text : Text
  pub status : String
  pub error_code : Option String
  pub raised : Option Exc
  pub yielded : List Text

abbrev yields : Text → Pumped → Pumped
yields t p = record p { yielded = t ∷ p.yielded }

abbrev stopped : Text → String → Pumped
stopped text status = record {
  completion_text = text;
  status = status;
  error_code = none;
  raised = none;
  yielded = [];
}

-- `except Exception as exc`
abbrev broken_off : Text → Exc → Pumped
broken_off text exc = record {
  completion_text = text;
  status = "failed";
  error_code = some (error_code_of "internal_server_error" exc);
  raised = some exc;
  yielded = [];
}

-- The loop, from the text so far.
unfoldable pub pump : (Text → Option Json) → Text → Upstream → Pumped
pump loads text exhausted = stopped text "completed"
pump loads text (broken exc) = broken_off text exc
pump loads text (event is_disconnected e is_closed upstream) =
    if is_disconnected
    then stopped text "client_disconnected"
    else elim (stream_delta_text loads e) [
      | raise exc ↦ broken_off text exc
      | ok delta ↦ elim is_closed [
        | true ↦ yields e (stopped (text ++ delta) "completed")
        | false ↦ yields e (pump loads (text ++ delta) upstream)
      ]
    ]

module _ {S L : Type 0} (ports : Ports S L) (estimator : TokenEstimator) where
  -- The `finally`
  unfoldable pub settle : Admitted L → Pumped → Action (AppState × S) ⊤
  settle a p = do
    on_second (
        ports.finalize_tokens a.lease
          (usage_from_stream_text p.completion_text a.plan estimator p.status).total_tokens
          (str_eq p.status "failed"))
    account ports a (usage_from_stream_text p.completion_text a.plan estimator p.status)
        p.error_code
    on_second (ports.release a.lease)

  -- `raise`, or the end of the generator.
  unfoldable pub end_stream : Option Exc → List Text → Action (AppState × S) (List Text)
  end_stream none yielded = pure yielded
  end_stream (some exc) yielded = throw exc

  -- `_stream_response`
  unfoldable pub stream_response :
      (Text → Option Json) → Admitted L → Upstream → Action (AppState × S) (List Text)
  stream_response loads a upstream =
      settle a (pump loads [] upstream)
      >> end_stream (pump loads [] upstream).raised (pump loads [] upstream).yielded
