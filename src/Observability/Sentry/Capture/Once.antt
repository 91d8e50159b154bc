-- ===== src/Observability/Sentry/Capture/Once.antt =====
-- The exceptions of one request, reported one after the other
-- (backend/services/observability/sentry.py).
use llm_inference_gpu_server.Common.{
  ⊤, ℕ, ◌+◌, String, ◌≡◌, refl, Bool, true, false, Option, none, some, List, [], ◌∷◌, if◌then◌else◌,
  inl, inr, Bool-cases, arith,
}
use llm_inference_gpu_server.Errors.{Exc, Result, ok, raise, Action, pure, ◌>>◌}
use llm_inference_gpu_server.Errors.Ends.{Ends, Ends-pure, Ends-then}
use llm_inference_gpu_server.Json.{end}
use llm_inference_gpu_server.Observability.Sentry.Capture.{
  SentrySdk, Request, noted, capture_request_exception,
}
use llm_inference_gpu_server.Observability.Sentry.Capture.Sends.{
  sent, SdkLaws, capture_exception-Ends, bind_request_context-Ends,
}

module _ {K : Type 0} {sdk : SentrySdk K} (is_word : ℕ → Bool) (laws : SdkLaws sdk) where
  -- 1 when an event was sent for the request, and 0 otherwise.
  abbrev pub flag : Request → ℕ
  flag request = if request.sentry_exception_captured then 1 else 0

  abbrev pub Flagged : ℕ → K × Request → Type 0
  Flagged n w = laws.events w.0 ≡ n + flag w.1

  unflagged : (request : Request) → request.sentry_exception_captured ≡ false → flag request ≡ 0
  unflagged request h = rw h refl

  flagged : (request : Request) → request.sentry_exception_captured ≡ true → flag request ≡ 1
  flagged request h = rw h refl

  noted-Ends :
      (n : ℕ) (request : Request) (x : Result (Option String) × K)
      → flag request ≡ 0
      → Ends (λ o t. laws.events t ≡ n + sent o) (λ _ _. ⊥) x
      → Ends (λ _ w. Flagged n w) (λ _ _. ⊥) (noted is_word sdk request x)
  noted-Ends n request (ok none, k) h g = record { holds = omega (arith, h, g.holds) }
  noted-Ends n request (ok (some id), k) h g = record { holds = g.holds }
  noted-Ends n request (raise e, k) h g = record { holds = g.holds }

  pub capture_request_exception-Ends :
      (enabled : Bool) (exc : Exc) (model : Option String) (stream : Option Bool) (n : ℕ) (k : K)
      (request : Request)
      → Flagged n (k, request)
      → Ends
          (λ _ w. Flagged n w)
          (λ _ _. ⊥)
          (capture_request_exception is_word sdk enabled exc model stream (k, request))
  unfolding capture_request_exception
  capture_request_exception-Ends enabled exc model stream n k request e =
      elim (Bool-cases request.sentry_exception_captured) [
        | inl h ↦ simp h (record { holds = e })
        | inr h ↦ simp h (
            noted-Ends n request _ (unflagged request h) (
              Ends-then _ _ k
                (bind_request_context-Ends is_word laws enabled request model stream n k
                  (omega (arith, e, unflagged request h)))
                (λ _ t g. capture_exception-Ends is_word laws enabled exc _ end n t g)
                (λ _ _ x. x)))
      ]

  SameId : Request → K × Request → Type 0
  SameId request w = w.1.request_id ≡ request.request_id

  noted-SameId :
      (request : Request) (x : Result (Option String) × K)
      → Ends (λ _ w. SameId request w) (λ _ w. SameId request w) (noted is_word sdk request x)
  unfolding SameId
  noted-SameId request (ok none, k) = record { holds = refl }
  noted-SameId request (ok (some id), k) = record { holds = refl }
  noted-SameId request (raise e, k) = record { holds = refl }

  pub capture_request_exception-SameId :
      (enabled : Bool) (exc : Exc) (model : Option String) (stream : Option Bool) (k : K)
      (request : Request)
      → Ends
          (λ _ w. w.1.request_id ≡ request.request_id)
          (λ _ w. w.1.request_id ≡ request.request_id)
          (capture_request_exception is_word sdk enabled exc model stream (k, request))
  unfolding capture_request_exception SameId
  capture_request_exception-SameId enabled exc model stream k request =
      elim (Bool-cases request.sentry_exception_captured) [
        | inl h ↦ simp h (record { holds = refl })
        | inr h ↦ simp h (noted-SameId request _)
      ]

  -- The exceptions of a request, from several handlers.
  unfoldable pub report_all : Bool → List Exc → Option String → Option Bool → Action (K × Request) ⊤
  report_all enabled [] model stream = pure tt
  report_all enabled (exc ∷ excs) model stream =
      capture_request_exception is_word sdk enabled exc model stream
      >> report_all enabled excs model stream

  -- Reports of any number of exceptions of one request never raise, and send one event at most: as
  -- many as the mark on the request says, from a request that has none.
  pub report_all-Once :
      (enabled : Bool) (excs : List Exc) (model : Option String) (stream : Option Bool) (n : ℕ)
      (w : K × Request)
      → Flagged n w
      → Ends (λ _ v. Flagged n v) (λ _ _. ⊥) (report_all enabled excs model stream w)
  unfolding report_all
  report_all-Once enabled [] model stream n w h = Ends-pure tt _ _ w h
  report_all-Once enabled (exc ∷ excs) model stream n (k, request) h =
      Ends-then _ _ (k, request)
        (capture_request_exception-Ends enabled exc model stream n k request h)
        (λ _ v g. report_all-Once enabled excs model stream n v g) (λ _ _ x. x)
