-- ===== src/Observability/Sentry/Capture/Sends.antt =====
-- What Sentry promises of the events it sends, and what the report of an exception sends
-- (backend/services/observability/sentry.py).
use llm_inference_gpu_server.Common.{
  ℕ, ◌+◌, String, ◌≡◌, ◌∙◌, ap, Bool, not, ◌||◌, Option, none, some, List, [], ◌∷◌, ◌++◌, inl, inr,
  Bool-cases, arith,
}
use llm_inference_gpu_server.Errors.{Exc, Action, ◌>>◌, try_finally}
use llm_inference_gpu_server.Errors.Ends.{
  Ends, Ends-pure, Ends-then, Ends-weaken, Ends-try_except, Ends-try_finally,
}
use llm_inference_gpu_server.Errors.Keeps.{Keeps, Keeps-pure, Keeps-then}
use llm_inference_gpu_server.Json.{Json, Fields, field, end}
use llm_inference_gpu_server.Auth.{AuthContext}
use llm_inference_gpu_server.Observability.Sentry.Capture.{
  SentrySdk, Request, should_skip_exception, set_tags, set_app_context, with_scope,
  capture_exception, set_caller, bind_request_context, request_tags, caller_tags,
}

-- An event with an identifier was sent.
abbrev pub sent : Option String → ℕ
sent none = 0
sent (some id) = 1

-- What Sentry documents: of its calls only `capture_exception` sends an event, and it answers with the
-- identifier if it has; a scope can be left.
pub record SdkLaws {K : Type 0} (sdk : SentrySdk K) : Type 0 where
  pub events : K → ℕ
  pub enter_law : (n : ℕ) → Keeps (λ k. events k ≡ n) sdk.enter_scope
  pub exit_law : (k : K) → Ends (λ _ t. events t ≡ events k) (λ _ _. ⊥) (sdk.exit_scope k)
  pub tag_law : (n : ℕ) (name value : String) → Keeps (λ k. events k ≡ n) (sdk.set_tag name value)
  pub context_law :
      (n : ℕ) (name : String) (value : Json)
      → Keeps (λ k. events k ≡ n) (sdk.set_context name value)
  pub user_law : (n : ℕ) (user : Json) → Keeps (λ k. events k ≡ n) (sdk.set_user user)
  pub capture_law :
      (exc : Exc) (k : K)
      → Ends
          (λ o t. events t ≡ events k + sent o)
          (λ _ t. events t ≡ events k)
          (sdk.capture_exception exc k)

module _ {K : Type 0} {sdk : SentrySdk K} (is_word : ℕ → Bool) (laws : SdkLaws sdk) where
  set_tags-Keeps :
      (n : ℕ) (tags : List (String × Option String))
      → Keeps (λ k. laws.events k ≡ n) (set_tags is_word sdk tags)
  unfolding set_tags
  set_tags-Keeps n [] = Keeps-pure _ tt
  set_tags-Keeps n ((name, none) ∷ tags) = set_tags-Keeps n tags
  set_tags-Keeps n ((name, some value) ∷ tags) =
      Keeps-then _ _ _ (laws.tag_law n name value) (set_tags-Keeps n tags)

  set_app_context-Keeps :
      (n : ℕ) (context : Fields)
      → Keeps (λ k. laws.events k ≡ n) (set_app_context is_word sdk context)
  unfolding set_app_context
  set_app_context-Keeps n end = Keeps-pure _ tt
  set_app_context-Keeps n (field key v fields) = laws.context_law n "app" _

  set_caller-Keeps :
      (n : ℕ) (context : Option AuthContext)
      → Keeps (λ k. laws.events k ≡ n) (set_caller is_word sdk context)
  unfolding set_caller
  set_caller-Keeps n none = Keeps-pure _ tt
  set_caller-Keeps n (some context) = laws.user_law n _

  -- A scope around a call that sends what `f` says of its answer.
  with_scope-Ends :
      {A : Type 0} (f : A → ℕ) (m : Action K A) (n : ℕ)
      → ((k : K)
          → laws.events k ≡ n
          → Ends (λ a t. laws.events t ≡ n + f a) (λ _ t. laws.events t ≡ n) (m k))
      → (k : K) → laws.events k ≡ n
      → Ends
          (λ a t. laws.events t ≡ n + f a)
          (λ _ t. laws.events t ≡ n)
          (with_scope is_word sdk m k)
  unfolding with_scope
  with_scope-Ends f m n h k e =
      Ends-then sdk.enter_scope (try_finally m sdk.exit_scope) k ((laws.enter_law n).keeps k e)
        (λ _ t g.
          Ends-try_finally m sdk.exit_scope t (h t g)
            (λ a u p.
              Ends-weaken (sdk.exit_scope u) (laws.exit_law u) (λ _ v q. q ∙ p)
                (λ _ _ x. absurd (x)))
            (λ x u p.
              Ends-weaken (sdk.exit_scope u) (laws.exit_law u) (λ _ v q. q ∙ p)
                (λ _ _ x. absurd (x))))
        (λ _ _ g. g)

  pub capture_exception-Ends :
      (enabled : Bool) (exc : Exc) (tags : List (String × Option String)) (context : Fields) (n : ℕ)
      (k : K)
      → laws.events k ≡ n
      → Ends
          (λ o t. laws.events t ≡ n + sent o)
          (λ _ _. ⊥)
          (capture_exception is_word sdk enabled exc tags context k)
  unfolding capture_exception
  capture_exception-Ends enabled exc tags context n k e =
      elim (Bool-cases (should_skip_exception exc || not enabled)) [
        | inl h ↦ rw h (Ends-pure none _ _ k (omega (arith, e)))
        | inr h ↦ rw h (
            Ends-try_except _ _ k (with_scope-Ends sent _ n (tagged n) k e)
              (λ _ t g. Ends-pure none _ _ t (omega (arith, g))))
      ]
    where
      tagged :
          (n : ℕ) (k : K)
          → laws.events k ≡ n
          → Ends
              (λ o t. laws.events t ≡ n + sent o)
              (λ _ t. laws.events t ≡ n)
              ((set_tags is_word sdk tags
                  >> (set_app_context is_word sdk context >> sdk.capture_exception exc))
                k)
      tagged n k e =
          Ends-then _ _ k ((set_tags-Keeps n tags).keeps k e)
            (λ _ t g.
              Ends-then _ _ t ((set_app_context-Keeps n context).keeps t g)
                (λ _ u j.
                  Ends-weaken (sdk.capture_exception exc u) (laws.capture_law exc u)
                    (λ o v q. q ∙ ap (λ x. x + sent o) j) (λ _ v q. q ∙ j))
                (λ _ _ j. j))
            (λ _ _ g. g)

  pub bind_request_context-Ends :
      (enabled : Bool) (request : Request) (model : Option String) (stream : Option Bool) (n : ℕ)
      (k : K)
      → laws.events k ≡ n
      → Ends
          (λ _ t. laws.events t ≡ n)
          (λ _ _. ⊥)
          (bind_request_context is_word sdk enabled request model stream k)
  unfolding bind_request_context
  bind_request_context-Ends enabled request model stream n k e = elim (Bool-cases (not enabled)) [
    | inl h ↦ rw h (Ends-pure tt _ _ k e)
    | inr h ↦ rw h (
        Ends-try_except _ _ k
          (Ends-weaken _ (with_scope-Ends (λ _. 0) _ n tagged k e) (λ _ t g. omega (arith, g))
            (λ _ t g. g))
          (λ _ t g. Ends-pure tt _ _ t g))
  ]
    where
      tagged :
          (k : K)
          → laws.events k ≡ n
          → Ends
              (λ _ t. laws.events t ≡ n + 0)
              (λ _ t. laws.events t ≡ n)
              ((set_tags is_word sdk
                    (request_tags request model stream ++ caller_tags request.auth_context)
                  >> set_caller is_word sdk request.auth_context)
                k)
      tagged k e =
          Ends-weaken _
            ((Keeps-then _ _ _ (set_tags-Keeps n _) (set_caller-Keeps n request.auth_context)).keeps
              k e)
            (λ _ t g. omega (arith, g)) (λ _ t g. g)
