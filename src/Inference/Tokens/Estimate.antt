-- ===== src/Inference/Tokens/Estimate.antt =====
-- What the estimates of the token accounting count
-- (backend/services/inference/token_accounting.py).
use llm_inference_gpu_server.Common.{ℕ, ◌+◌, ◌*◌, ◌≤◌, ◌<◌, ◌≡◌, ◌∙◌, List, [], ◌∷◌, length, arith}
use llm_inference_gpu_server.Text.{Text, strip}
use llm_inference_gpu_server.Inference.Chat.{
  ChatMessage, iter_message_text_parts, count_message_images,
}
use llm_inference_gpu_server.Inference.Tokens.{
  TokenEstimator, count_stripped, count_text, add_texts, add_messages, estimate_prompt_tokens,
}

-- Four characters, or what is left of them, are a token.
count_text-Quarter :
    (t : Text) → (length (strip t) ≤ 4 * count_text t) × (4 * count_text t < length (strip t) + 4)
unfolding count_text count_stripped
count_text-Quarter t = go (strip t)
  where
    go : (s : Text) → (length s ≤ 4 * count_stripped s) × (4 * count_stripped s < length s + 4)
    go [] = (omega arith, omega arith)
    go (c ∷ s) = (ground arith, ground arith)

-- The texts of a list of messages, with their roles, and the images.
abbrev pub cost_texts : TokenEstimator → List Text → ℕ
cost_texts estimator [] = 0
cost_texts estimator (t ∷ ts) = estimator t + cost_texts estimator ts

abbrev pub cost : TokenEstimator → ChatMessage → ℕ
cost estimator m =
    4
    + estimator m.role
    + cost_texts estimator (iter_message_text_parts m.content)
    + 512 * count_message_images m.content

abbrev pub cost_all : TokenEstimator → List ChatMessage → ℕ
cost_all estimator [] = 0
cost_all estimator (m ∷ ms) = cost estimator m + cost_all estimator ms

add_texts-cost :
    (estimator : TokenEstimator) (total : ℕ) (ts : List Text)
    → add_texts estimator total ts ≡ total + cost_texts estimator ts
unfolding add_texts
add_texts-cost estimator total [] = omega arith
add_texts-cost estimator total (t ∷ ts) =
    add_texts-cost estimator (total + estimator t) ts ∙ omega arith

add_messages-cost :
    (estimator : TokenEstimator) (ms : List ChatMessage) (total : ℕ)
    → add_messages estimator total ms ≡ total + cost_all estimator ms
unfolding add_messages
add_messages-cost estimator [] total = omega arith
add_messages-cost estimator (m ∷ ms) total =
    add_messages-cost estimator ms _
    ∙ omega (arith, add_texts-cost estimator _ (iter_message_text_parts m.content))

pub estimate_prompt_tokens-cost :
    (estimator : TokenEstimator) (ms : List ChatMessage)
    → estimate_prompt_tokens ms estimator ≡ cost_all estimator ms + 2
unfolding estimate_prompt_tokens
estimate_prompt_tokens-cost estimator ms = omega (arith, add_messages-cost estimator ms 0)
