-- ===== src/Inference/Tokens/Plan.antt =====
-- When a request gets a token plan, and which error refuses it
-- (backend/services/inference/token_accounting.py).
use llm_inference_gpu_server.Common.{ℕ, inl, inr, Bool-cases}
use llm_inference_gpu_server.Common.Int.{ℤ, pos, ◌+ℤ◌, ◌≤ℤ◌, ◌<ℤ◌, ltb_ℤ, within_limit, over_limit}
use llm_inference_gpu_server.Errors.{app, Result, ok, raise}
use llm_inference_gpu_server.Inference.Chat.{ChatCompletionRequest}
use llm_inference_gpu_server.Inference.Tokens.{
  TokenEstimator, TokenPlan, Limits, estimate_prompt_tokens, requested_output_tokens,
  build_token_plan, max_output_tokens_exceeded, max_input_tokens_exceeded,
  max_total_tokens_exceeded,
}

module _ (request : ChatCompletionRequest) (estimator : TokenEstimator) (limits : Limits) where
  abbrev pub prompt : ℕ
  prompt = estimate_prompt_tokens request.messages estimator

  abbrev pub requested : ℤ
  requested = requested_output_tokens request.max_tokens limits.max_output_tokens

  -- The tests are made in this order, and the first that fails names the error.
  pub data Planned : Result TokenPlan → Type 0 where
    planned :
        requested ≤ℤ limits.max_output_tokens
        → pos prompt ≤ℤ limits.max_input_tokens
        → pos prompt +ℤ requested ≤ℤ limits.max_total_tokens
        → Planned (
            ok (record {
              prompt_tokens = prompt;
              max_completion_tokens = requested;
              estimated_total_tokens = pos prompt +ℤ requested;
            }))
    too_much_output :
        limits.max_output_tokens <ℤ requested → Planned (raise (app max_output_tokens_exceeded))
    too_much_input :
        requested ≤ℤ limits.max_output_tokens
        → limits.max_input_tokens <ℤ pos prompt
        → Planned (raise (app max_input_tokens_exceeded))
    too_much_in_all :
        requested ≤ℤ limits.max_output_tokens
        → pos prompt ≤ℤ limits.max_input_tokens
        → limits.max_total_tokens <ℤ pos prompt +ℤ requested
        → Planned (raise (app max_total_tokens_exceeded))

  pub build_token_plan-Planned : Planned (build_token_plan request estimator limits)
  unfolding build_token_plan
  build_token_plan-Planned = elim (Bool-cases (ltb_ℤ limits.max_output_tokens requested)) [
    | inl h ↦ rw h (too_much_output (over_limit limits.max_output_tokens requested h))
    | inr h ↦
        let out = within_limit limits.max_output_tokens requested h in
        elim (Bool-cases (ltb_ℤ limits.max_input_tokens (pos prompt))) [
          | inl k ↦
              rw (h, k) (too_much_input out (over_limit limits.max_input_tokens (pos prompt) k))
          | inr k ↦
              let inp = within_limit limits.max_input_tokens (pos prompt) k in
              elim (Bool-cases (ltb_ℤ limits.max_total_tokens (pos prompt +ℤ requested))) [
                | inl l ↦
                    rw (h, k, l)
                      (too_much_in_all out inp
                        (over_limit limits.max_total_tokens (pos prompt +ℤ requested) l))
                | inr l ↦
                    rw (h, k, l)
                      (planned out inp
                        (within_limit limits.max_total_tokens (pos prompt +ℤ requested) l))
              ]
        ]
  ]
