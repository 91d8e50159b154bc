-- ===== src/Inference/Tokens.antt =====
-- The token accounting (backend/services/inference/token_accounting.py).
pub mod Estimate
pub mod Plan
pub mod Usage
use llm_inference_gpu_server.Common.{
  ℕ, ◌+◌, String, ◌*◌, ◌/◌, ◌≤◌, Bool, true, false, Option, none, some, List, [], ◌∷◌, length, leb,
  if◌then◌else◌,
}
use llm_inference_gpu_server.Common.Int.{ℤ, pos, ◌+ℤ◌, ltb_ℤ, eqb_ℤ}
use llm_inference_gpu_server.Errors.{AppError, Exc, app, Result, ok, raise}
use llm_inference_gpu_server.Text.{Text, strip}
use llm_inference_gpu_server.Inference.Chat.{
  Content, ChatMessage, ChatCompletionRequest, iter_message_text_parts, count_message_images,
}

-- `TokenEstimator`: its `count_text`.
abbrev pub TokenEstimator : Type 0
TokenEstimator = Text → ℕ

abbrev ceil_quarter : ℕ → ℕ
ceil_quarter n = (n + 3) / 4

-- `HeuristicTokenEstimator.count_text`, after the text was stripped.
unfoldable pub count_stripped : Text → ℕ
count_stripped [] = 0
count_stripped (c ∷ s) = let n = ceil_quarter (length (c ∷ s)) in if leb 1 n then n else 1

unfoldable pub count_text : Text → ℕ
count_text text = count_stripped (strip text)

-- `TokenPlan`
pub record TokenPlan : Type 0 where
  pub prompt_tokens : ℕ
  pub max_completion_tokens : ℤ
  pub estimated_total_tokens : ℤ

-- `UsageRecord`
pub record UsageRecord : Type 0 where
  pub prompt_tokens : ℤ
  pub completion_tokens : ℤ
  pub total_tokens : ℤ
  pub status : String

-- The three limits of the settings.
pub record Limits : Type 0 where
  pub max_input_tokens : ℤ
  pub max_output_tokens : ℤ
  pub max_total_tokens : ℤ

abbrev pub image_part_token_estimate : ℕ
image_part_token_estimate = 512

abbrev pub max_output_tokens_exceeded : AppError
max_output_tokens_exceeded = record {
  message = "Requested max_tokens exceeds the configured output token limit";
  code = "max_output_tokens_exceeded";
  status_code = 400;
  error_type = "invalid_request_error";
  param = some "max_tokens";
}

abbrev pub max_input_tokens_exceeded : AppError
max_input_tokens_exceeded = record {
  message = "Prompt exceeds the configured input token limit";
  code = "max_input_tokens_exceeded";
  status_code = 413;
  error_type = "invalid_request_error";
  param = some "messages";
}

abbrev pub max_total_tokens_exceeded : AppError
max_total_tokens_exceeded = record {
  message = "Request exceeds the configured total token limit";
  code = "max_total_tokens_exceeded";
  status_code = 413;
  error_type = "invalid_request_error";
  param = some "max_tokens";
}

-- `for text_part in ...: total += estimator.count_text(text_part)`
unfoldable pub add_texts : TokenEstimator → ℕ → List Text → ℕ
add_texts estimator total [] = total
add_texts estimator total (t ∷ ts) = add_texts estimator (total + estimator t) ts

-- The loop of `estimate_prompt_tokens`
unfoldable pub add_messages : TokenEstimator → ℕ → List ChatMessage → ℕ
add_messages estimator total [] = total
add_messages estimator total (m ∷ ms) =
    let with_role = total + 4 + estimator m.role in
    let with_texts = add_texts estimator with_role (iter_message_text_parts m.content) in
    add_messages estimator (with_texts + count_message_images m.content * image_part_token_estimate)
      ms

-- `estimate_prompt_tokens`
unfoldable pub estimate_prompt_tokens : List ChatMessage → TokenEstimator → ℕ
estimate_prompt_tokens messages estimator = add_messages estimator 0 messages + 2

-- `request.max_tokens or max_output_tokens`
unfoldable pub requested_output_tokens : Option ℤ → ℤ → ℤ
requested_output_tokens none limit = limit
requested_output_tokens (some n) limit = if eqb_ℤ n (pos 0) then limit else n

-- `build_token_plan`
unfoldable pub build_token_plan : ChatCompletionRequest → TokenEstimator → Limits → Result TokenPlan
build_token_plan request estimator limits =
    let prompt = estimate_prompt_tokens request.messages estimator in
    let requested = requested_output_tokens request.max_tokens limits.max_output_tokens in
    let estimated = pos prompt +ℤ requested in
    if ltb_ℤ limits.max_output_tokens requested
    then raise (app max_output_tokens_exceeded)
    else if ltb_ℤ limits.max_input_tokens (pos prompt)
    then raise (app max_input_tokens_exceeded)
    else if ltb_ℤ limits.max_total_tokens estimated
    then raise (app max_total_tokens_exceeded)
    else ok (record {
      prompt_tokens = prompt;
      max_completion_tokens = requested;
      estimated_total_tokens = estimated;
    })
