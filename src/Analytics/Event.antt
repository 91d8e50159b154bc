-- ===== src/Analytics/Event.antt =====
-- The events of the analytics and their rows (backend/services/analytics/event_models.py).
use llm_inference_gpu_server.Common.{String, ◌≡◌, refl, Bool, Option, List, [], ◌∷◌, length}
use llm_inference_gpu_server.Common.Int.{ℤ}

-- `AnalyticsTable`
pub data AnalyticsTable : Type 0 where
  usage_events inference_events : AnalyticsTable

abbrev pub usage_event_columns : List String
usage_event_columns =
    "event_time" ∷ "request_id" ∷ "user_id" ∷ "project_id" ∷ "api_key_id" ∷ "model" ∷ "status"
    ∷ "prompt_tokens" ∷ "completion_tokens" ∷ "total_tokens" ∷ "latency_ms" ∷ "error_code" ∷ []

abbrev pub inference_event_columns : List String
inference_event_columns =
    "event_time" ∷ "request_id" ∷ "event_type" ∷ "user_id" ∷ "project_id" ∷ "api_key_id" ∷ "model"
    ∷ "status" ∷ "latency_ms" ∷ "error_code" ∷ []

-- `UsageEvent`; a time is a number of microseconds.
pub record UsageEvent : Type 0 where
  pub event_time : ℤ
  pub request_id : String
  pub user_id : String
  pub project_id : String
  pub api_key_id : String
  pub model : String
  pub status : String
  pub prompt_tokens : ℤ
  pub completion_tokens : ℤ
  pub total_tokens : ℤ
  pub latency_ms : Option ℤ
  pub error_code : Option String
  pub critical : Bool

-- `InferenceEvent`
pub record InferenceEvent : Type 0 where
  pub event_time : ℤ
  pub request_id : String
  pub event_type : String
  pub user_id : String
  pub project_id : String
  pub api_key_id : String
  pub model : String
  pub status : String
  pub latency_ms : Option ℤ
  pub error_code : Option String
  pub critical : Bool

-- `AnalyticsEvent`
pub data AnalyticsEvent : Type 0 where
  usage : UsageEvent → AnalyticsEvent
  inference : InferenceEvent → AnalyticsEvent

-- A cell of a row.
pub data Cell : Type 0 where
  time : ℤ → Cell
  text : String → Cell
  number : ℤ → Cell
  number_or_null : Option ℤ → Cell
  text_or_null : Option String → Cell

-- `event.table`
unfoldable pub table : AnalyticsEvent → AnalyticsTable
table (usage e) = usage_events
table (inference e) = inference_events

-- `event.critical`
unfoldable pub is_critical : AnalyticsEvent → Bool
is_critical (usage e) = e.critical
is_critical (inference e) = e.critical

-- `UsageEvent.to_row`, `InferenceEvent.to_row`
unfoldable pub to_row : AnalyticsEvent → List Cell
to_row (usage e) =
    time e.event_time
    ∷ text e.request_id
    ∷ text e.user_id
    ∷ text e.project_id
    ∷ text e.api_key_id
    ∷ text e.model
    ∷ text e.status
    ∷ number e.prompt_tokens
    ∷ number e.completion_tokens
    ∷ number e.total_tokens
    ∷ number_or_null e.latency_ms
    ∷ text_or_null e.error_code
    ∷ []
to_row (inference e) =
    time e.event_time
    ∷ text e.request_id
    ∷ text e.event_type
    ∷ text e.user_id
    ∷ text e.project_id
    ∷ text e.api_key_id
    ∷ text e.model
    ∷ text e.status
    ∷ number_or_null e.latency_ms
    ∷ text_or_null e.error_code
    ∷ []

-- `columns_for_table`
unfoldable pub columns_for_table : AnalyticsTable → List String
columns_for_table usage_events = usage_event_columns
columns_for_table inference_events = inference_event_columns

pub length-to_row : (e : AnalyticsEvent) → length (to_row e) ≡ length (columns_for_table (table e))
unfolding to_row columns_for_table table
length-to_row (usage e) = refl
length-to_row (inference e) = refl
