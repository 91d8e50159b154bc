-- ===== src/Inference/Tests.antt =====
-- Runs of the token accounting (backend/services/inference/token_accounting.py).
use llm_inference_gpu_server.Common.{◌+◌, ◌≡◌, refl, false, some, List, [], ◌∷◌}
use llm_inference_gpu_server.Common.Int.{pos, ◌+ℤ◌}
use llm_inference_gpu_server.Errors.{ok}
use llm_inference_gpu_server.Text.{Text, codes}
use llm_inference_gpu_server.Json.{Fields, field, end, obj, int, null, get_field}
use llm_inference_gpu_server.Batch.Job.{usage_dict}
use llm_inference_gpu_server.Inference.Chat.{
  ChatMessage, ChatCompletionRequest, plain, parts, text_part, image_part,
}
use llm_inference_gpu_server.Inference.Tokens.{
  TokenPlan, Limits, count_text, estimate_prompt_tokens, build_token_plan,
}
use llm_inference_gpu_server.Inference.Tokens.Estimate.{cost_all, estimate_prompt_tokens-cost}
use llm_inference_gpu_server.Inference.Tokens.Plan.{Planned, build_token_plan-Planned}
use llm_inference_gpu_server.Inference.Tokens.Usage.{
  completed, usage_from_response, usage_from_response-total, usage_dict-usage_from_response,
  reported_usage, usage_or_estimate, and_then, int_or_zero,
}

abbrev hello : Text
hello = codes " hello "

abbrev chat : List ChatMessage
chat =
    record { role = codes "system"; content = plain (codes "Be brief.") }
    ∷ record {
      role = codes "user";
      content = parts (text_part hello ∷ image_part (codes "data:") ∷ []);
    }
    ∷ []

abbrev request : ChatCompletionRequest
request = record { model = "qwen"; messages = chat; stream = false; max_tokens = some (pos 9) }

abbrev limits : Limits
limits = record {
  max_input_tokens = pos 600;
  max_output_tokens = pos 64;
  max_total_tokens = pos 640;
}

abbrev plan : TokenPlan
plan = record { prompt_tokens = 7; max_completion_tokens = pos 9; estimated_total_tokens = pos 16 }

abbrev partial_usage : Fields
partial_usage = field "prompt_tokens" (int (pos 5)) (field "completion_tokens" null end)

abbrev partial : Fields
partial = field "usage" (obj partial_usage) end

abbrev full : Fields
full = field "usage" (obj (usage_dict (pos 5) (pos 6) (pos 12))) end

estimate_prompt_tokens-cost_example :
    estimate_prompt_tokens chat count_text ≡ cost_all count_text chat + 2
estimate_prompt_tokens-cost_example = estimate_prompt_tokens-cost count_text chat

build_token_plan-Planned_example :
    Planned request count_text limits (build_token_plan request count_text limits)
build_token_plan-Planned_example = build_token_plan-Planned request count_text limits

usage_from_response-total_example : pos 5 ≡ pos 5 +ℤ pos 0
unfolding usage_from_response usage_or_estimate reported_usage and_then int_or_zero get_field ◌+ℤ◌
usage_from_response-total_example =
    usage_from_response-total partial plan count_text
      (record {
        prompt_tokens = pos 5;
        completion_tokens = pos 0;
        total_tokens = pos 5;
        status = completed;
      })
      refl refl

usage_dict-usage_from_response_example :
    usage_from_response full plan count_text
    ≡ ok (record {
      prompt_tokens = pos 5;
      completion_tokens = pos 6;
      total_tokens = pos 12;
      status = completed;
    })
unfolding get_field
usage_dict-usage_from_response_example =
    usage_dict-usage_from_response full plan count_text (pos 5) (pos 6) (pos 12) refl
