-- ===== src/Observability/Sentry/Capture/Memory.antt =====
-- A Sentry that always answers: what its laws ask for can be had
-- (backend/services/observability/sentry.py).
use llm_inference_gpu_server.Common.{ℕ, ◌+◌, refl, Bool, false, ◌||◌, ◌==◌, none, some}
use llm_inference_gpu_server.Errors.{ok}
use llm_inference_gpu_server.Text.{is_digit}
use llm_inference_gpu_server.Observability.Sentry.Patterns.{is_letter}
use llm_inference_gpu_server.Observability.Sentry.Capture.{SentrySdk, Request}
use llm_inference_gpu_server.Observability.Sentry.Capture.Sends.{SdkLaws}

-- `\w`, on ASCII.
abbrev pub ascii_word : ℕ → Bool
ascii_word c = is_letter c || is_digit c || c == b'_'

-- The state is the number of events.
abbrev pub sdk : SentrySdk ℕ
sdk = record {
  init = λ settings n. (ok tt, n);
  enter_scope = λ n. (ok tt, n);
  exit_scope = λ n. (ok tt, n);
  set_tag = λ name value n. (ok tt, n);
  set_context = λ name value n. (ok tt, n);
  set_user = λ user n. (ok tt, n);
  capture_exception = λ exc n. (ok (some "event"), n + 1);
}

abbrev pub sdk_laws : SdkLaws sdk
sdk_laws = record {
  events = λ n. n;
  enter_law = λ n. record { keeps = λ s h. record { holds = h } };
  exit_law = λ k. record { holds = refl };
  tag_law = λ n name value. record { keeps = λ s h. record { holds = h } };
  context_law = λ n name value. record { keeps = λ s h. record { holds = h } };
  user_law = λ n user. record { keeps = λ s h. record { holds = h } };
  capture_law = λ exc k. record { holds = refl };
}

abbrev pub sample_request : Request
sample_request = record {
  auth_context = none;
  request_id = some "r1";
  path = "/v1/chat/completions";
  method = "POST";
  sentry_exception_captured = false;
}
