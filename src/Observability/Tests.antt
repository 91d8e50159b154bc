-- ===== src/Observability/Tests.antt =====
-- Reports, the scrubbing of an event and the metrics of a request (backend/services/observability).
use llm_inference_gpu_server.Common.{◌≡◌, refl, true, none, some, [], ◌∷◌}
use llm_inference_gpu_server.Errors.{Exc, other}
use llm_inference_gpu_server.Errors.Ends.{Ends}
use llm_inference_gpu_server.Json.{Json, str, obj, field, end, get_field}
use llm_inference_gpu_server.Observability.Sentry.Patterns.{
  scrub_string, sub, bearer_pattern, token_after, api_key_pattern, url_credential_pattern, run,
  after, size, is_bearer_char, is_key_char, boundary, key_after, longest, password_after,
  is_password_char, is_user_char,
}
use llm_inference_gpu_server.Text.{text_eq, lower, contains, after_prefix}
use llm_inference_gpu_server.Observability.Sentry.Capture.Memory.{
  ascii_word, sdk_laws, sample_request,
}
use llm_inference_gpu_server.Observability.Sentry.Scrub.{
  scrub_data, is_hidden, is_secret_key, any_part, is_payload_key,
}
use llm_inference_gpu_server.Observability.Sentry.Scrub.Hidden.{
  key, lookup, Shown, scrub_data-Shown, child,
}
use llm_inference_gpu_server.Observability.Sentry.Capture.Once.{
  Flagged, report_all, report_all-Once,
}

abbrev crash : Exc
crash = other none "boom"

report_all-Once_example :
    Ends
      (λ _ v. Flagged ascii_word sdk_laws 0 v)
      (λ _ _. ⊥)
      (report_all ascii_word sdk_laws true (crash ∷ crash ∷ []) none none (0, sample_request))
report_all-Once_example =
    report_all-Once ascii_word sdk_laws true (crash ∷ crash ∷ []) none none 0 (0, sample_request)
      refl

abbrev event : Json
event = obj (
    field "request" (obj (field "Authorization" (str "Bearer abc") (field "url" (str "/v1") end)))
      end)

hidden :
    lookup (key "request" ∷ key "Authorization" ∷ []) (scrub_data ascii_word event)
    ≡ some (str "[Filtered]")
unfolding lookup child scrub_data get_field is_hidden is_secret_key text_eq lower any_part contains
    after_prefix is_payload_key
hidden = refl

scrub_data-Shown_example : Shown (key "request" ∷ key "Authorization" ∷ []) (str "[Filtered]")
scrub_data-Shown_example =
    scrub_data-Shown ascii_word (key "request" ∷ key "Authorization" ∷ []) event (str "[Filtered]")
      hidden

-- Texts with a secret in them.
bearer_scrubbed : scrub_string ascii_word "a bearer  x.y/z!" ≡ "a Bearer [Filtered]!"
unfolding scrub_string sub bearer_pattern token_after api_key_pattern url_credential_pattern run
    after size is_bearer_char is_key_char boundary key_after
bearer_scrubbed = refl

key_scrubbed : scrub_string ascii_word "(an_abcdef-123456-)" ≡ "([Filtered]-)"
unfolding scrub_string sub bearer_pattern token_after api_key_pattern url_credential_pattern run
    after size is_bearer_char is_key_char boundary key_after longest
key_scrubbed = refl

url_scrubbed : scrub_string ascii_word "redis://u:p:w@h" ≡ "redis://u:***@h"
unfolding scrub_string sub bearer_pattern token_after api_key_pattern url_credential_pattern run
    after size is_bearer_char is_key_char boundary key_after password_after is_password_char
    is_user_char
url_scrubbed = refl
