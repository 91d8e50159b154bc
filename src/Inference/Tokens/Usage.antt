-- ===== src/Inference/Tokens/Usage.antt =====
-- The usage of a response (backend/services/inference/token_accounting.py).
use llm_inference_gpu_server.Common.{
  String, ◌≡◌, refl, subst, Option, none, some, [], ◌++◌, if◌then◌else◌,
}
use llm_inference_gpu_server.Common.Int.{ℤ, pos, ◌+ℤ◌}
use llm_inference_gpu_server.Errors.{Exc, other, Result, ok, raise, ok_of, raise_ne_ok}
use llm_inference_gpu_server.Text.{Text, codes, parse_int}
use llm_inference_gpu_server.Json.{
  Json, null, bool, int, float, str, arr, obj, Items, nil, cons, Fields, end, get_field,
}
use llm_inference_gpu_server.Batch.Job.{usage_dict}
use llm_inference_gpu_server.Inference.Tokens.{TokenEstimator, TokenPlan, UsageRecord}

abbrev pub completed : String
completed = "completed"

abbrev value_error : Exc
value_error = other none "invalid literal for int()"

abbrev type_error : Exc
type_error = other none "int() argument must be a string, a bytes-like object or a real number"

abbrev of_parsed : Option ℤ → Result ℤ
of_parsed none = raise value_error
of_parsed (some n) = ok n

-- `int(value or 0)`
unfoldable pub int_or_zero : Json → Result ℤ
int_or_zero null = ok (pos 0)
int_or_zero (bool b) = ok (if b then pos 1 else pos 0)
int_or_zero (int n) = ok n
int_or_zero (float whole truth) = if truth then of_parsed whole else ok (pos 0)
int_or_zero (str String.[]) = ok (pos 0)
int_or_zero (str s) = of_parsed (parse_int (codes s))
int_or_zero (arr nil) = ok (pos 0)
int_or_zero (arr items) = raise type_error
int_or_zero (obj end) = ok (pos 0)
int_or_zero (obj fields) = raise type_error

-- `d.get(key, default)`
abbrev pub or_default : Option Json → Json → Json
or_default none default = default
or_default (some v) default = v

unfoldable pub and_then : {A B : Type 0} → Result A → (A → Result B) → Result B
and_then (ok a) f = f a
and_then (raise e) f = raise e

-- The usage that a response reports.
unfoldable pub reported_usage : Fields → TokenPlan → Result UsageRecord
reported_usage usage plan =
    and_then
      (int_or_zero (or_default (get_field usage "prompt_tokens") (int (pos plan.prompt_tokens))))
      (λ prompt.
        and_then (int_or_zero (or_default (get_field usage "completion_tokens") (int (pos 0))))
          (λ completion.
            and_then
              (int_or_zero
                (or_default (get_field usage "total_tokens") (int (prompt +ℤ completion))))
              (λ total. ok (record {
                prompt_tokens = prompt;
                completion_tokens = completion;
                total_tokens = total;
                status = completed;
              }))))

unfoldable pub text_content : Option Json → Text
text_content (some (str s)) = codes s
text_content _ = []

unfoldable pub message_content : Option Json → Text
message_content (some (obj message)) = text_content (get_field message "content")
message_content _ = []

-- `for choice in choices`
unfoldable pub add_contents : Text → Items → Text
add_contents text nil = text
add_contents text (cons (obj choice) items) =
    add_contents (text ++ message_content (get_field choice "message")) items
add_contents text (cons _ items) = add_contents text items

unfoldable pub completion_text : Option Json → Text
completion_text (some (arr choices)) = add_contents [] choices
completion_text _ = []

-- `usage_from_stream_text`
unfoldable pub usage_from_stream_text : Text → TokenPlan → TokenEstimator → String → UsageRecord
usage_from_stream_text text plan estimator status = record {
  prompt_tokens = pos plan.prompt_tokens;
  completion_tokens = pos (estimator text);
  total_tokens = pos plan.prompt_tokens +ℤ pos (estimator text);
  status = status;
}

unfoldable pub usage_or_estimate :
    Option Json → Fields → TokenPlan → TokenEstimator → Result UsageRecord
usage_or_estimate (some (obj usage)) response plan estimator = reported_usage usage plan
usage_or_estimate _ response plan estimator = ok (
    usage_from_stream_text (completion_text (get_field response "choices")) plan estimator
      completed)

-- `usage_from_response`
unfoldable pub usage_from_response : Fields → TokenPlan → TokenEstimator → Result UsageRecord
usage_from_response response plan estimator =
    usage_or_estimate (get_field response "usage") response plan estimator

-- A response that reports no total of its own.
abbrev pub NoTotal : Option Json → Type 0
NoTotal (some (obj usage)) = get_field usage "total_tokens" ≡ none
NoTotal _ = Unit

abbrev Adds : UsageRecord → Type 0
Adds u = u.total_tokens ≡ u.prompt_tokens +ℤ u.completion_tokens

reported_usage-total :
    (usage : Fields) (plan : TokenPlan) (u : UsageRecord)
    → get_field usage "total_tokens" ≡ none
    → reported_usage usage plan ≡ ok u
    → u.total_tokens ≡ u.prompt_tokens +ℤ u.completion_tokens
unfolding reported_usage and_then int_or_zero
reported_usage-total usage plan u none_there h =
    go (int_or_zero (or_default (get_field usage "prompt_tokens") (int (pos plan.prompt_tokens))))
      (int_or_zero (or_default (get_field usage "completion_tokens") (int (pos 0))))
      (rw none_there at h)
  where
    go :
        (p c : Result ℤ)
        → and_then p (λ prompt. and_then c (λ completion.
          and_then (int_or_zero (int (prompt +ℤ completion))) (λ total. ok (record {
            prompt_tokens = prompt;
            completion_tokens = completion;
            total_tokens = total;
            status = completed;
          }))))
          ≡ ok u
        → u.total_tokens ≡ u.prompt_tokens +ℤ u.completion_tokens
    go (ok p) (ok c) h = subst Adds (ok_of h) refl
    go (ok p) (raise e) h = absurd (raise_ne_ok h)
    go (raise e) c h = absurd (raise_ne_ok h)

pub usage_from_response-total :
    (response : Fields) (plan : TokenPlan) (estimator : TokenEstimator) (u : UsageRecord)
    → NoTotal (get_field response "usage")
    → usage_from_response response plan estimator ≡ ok u
    → u.total_tokens ≡ u.prompt_tokens +ℤ u.completion_tokens
unfolding usage_from_response usage_or_estimate usage_from_stream_text
usage_from_response-total response plan estimator u n h = go (get_field response "usage") n h
  where
    estimated :
        (text : Text) → ok (usage_from_stream_text text plan estimator completed) ≡ ok u → Adds u
    estimated text h = subst Adds (ok_of h) refl

    go :
        (o : Option Json)
        → NoTotal o
        → usage_or_estimate o response plan estimator ≡ ok u
        → u.total_tokens ≡ u.prompt_tokens +ℤ u.completion_tokens
    go (some (obj usage)) n h = reported_usage-total usage plan u n h
    go none n h = estimated _ h
    go (some null) n h = estimated _ h
    go (some (bool b)) n h = estimated _ h
    go (some (int z)) n h = estimated _ h
    go (some (float z b)) n h = estimated _ h
    go (some (str s)) n h = estimated _ h
    go (some (arr a)) n h = estimated _ h

pub usage_dict-usage_from_response :
    (response : Fields) (plan : TokenPlan) (estimator : TokenEstimator) (p c t : ℤ)
    → get_field response "usage" ≡ some (obj (usage_dict p c t))
    → usage_from_response response plan estimator
      ≡ ok (record {
        prompt_tokens = p;
        completion_tokens = c;
        total_tokens = t;
        status = completed;
      })
unfolding usage_from_response usage_or_estimate reported_usage and_then int_or_zero usage_dict
    get_field
usage_dict-usage_from_response response plan estimator p c t h = rw h refl
