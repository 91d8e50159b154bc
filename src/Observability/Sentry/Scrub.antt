-- ===== src/Observability/Sentry/Scrub.antt =====
-- The scrubbing of an event (backend/services/observability/sentry.py).
pub mod Hidden
use llm_inference_gpu_server.Common.{
  ℕ, zero, suc, String, ◌≡◌, refl, Bool, true, false, ◌||◌, Option, none, some, List, [], ◌∷◌,
  if◌then◌else◌,
}
use llm_inference_gpu_server.Text.{Text, codes, lower, text_eq, after_prefix, contains}
use llm_inference_gpu_server.Json.{
  Json, null, bool, int, float, str, arr, obj, Items, nil, cons, Fields, end, field,
}
use llm_inference_gpu_server.Observability.Sentry.Patterns.{redacted, scrub_string}

abbrev pub secret_key_parts : List Text
secret_key_parts =
    codes "authorization"
    ∷ codes "cookie"
    ∷ codes "password"
    ∷ codes "passwd"
    ∷ codes "secret"
    ∷ codes "token"
    ∷ codes "dsn"
    ∷ codes "credential"
    ∷ codes "private_key"
    ∷ codes "tunnel"
    ∷ []

abbrev pub payload_key_parts : List Text
payload_key_parts = codes "prompt" ∷ codes "messages" ∷ codes "input" ∷ []

-- `any(part in key for part in parts)`
unfoldable pub any_part : List Text → Text → Bool
any_part [] key = false
any_part (part ∷ parts) key = contains part key || any_part parts key

-- `_is_secret_key`
unfoldable pub is_secret_key : Text → Bool
is_secret_key key =
    if text_eq key (codes "api_key_id")
    then false
    else if text_eq key (codes "api_key") || text_eq key (codes "apikey")
    then true
    else any_part secret_key_parts key

-- `_is_payload_key`
unfoldable pub is_payload_key : Text → Bool
is_payload_key key = any_part payload_key_parts key

-- `_is_secret_key(key_text) or _is_payload_key(key_text)`, on `str(key).lower()`.
unfoldable pub is_hidden : String → Bool
is_hidden key = is_secret_key (lower (codes key)) || is_payload_key (lower (codes key))

-- `is_word` is the test of `\w` of the patterns.
module _ (is_word : ℕ → Bool) where
  -- `scrub_data`, on the values of JSON.
  unfoldable mutual
    pub scrub_data : Json → Json
    scrub_data (obj fields) = obj (scrub_fields fields)
    scrub_data (arr items) = arr (scrub_items items)
    scrub_data (str s) = str (scrub_string is_word s)
    scrub_data null = null
    scrub_data (bool b) = bool b
    scrub_data (int n) = int n
    scrub_data (float n b) = float n b

    pub scrub_items : Items → Items
    scrub_items nil = nil
    scrub_items (cons v items) = cons (scrub_data v) (scrub_items items)

    pub scrub_fields : Fields → Fields
    scrub_fields end = end
    scrub_fields (field key v fields) =
        let shown = scrub_data v in
        field key (if is_hidden key then str redacted else shown) (scrub_fields fields)
