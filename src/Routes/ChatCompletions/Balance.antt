-- ===== src/Routes/ChatCompletions/Balance.antt =====
-- A request that is not streamed releases its lease once, however it ends
-- (backend/api/routes/chat_completions.py).
use llm_inference_gpu_server.Common.{
  ℕ, ◌+◌, String, ◌≡◌, refl, ◌∙◌, ap, ◌⊎◌, inl, inr, Bool, true, false, Option, none, some,
  if◌then◌else◌,
}
use llm_inference_gpu_server.Common.Int.{ℤ, pos}
use llm_inference_gpu_server.Errors.{Exc, app, Action, pure, of_result, try_except}
use llm_inference_gpu_server.Errors.Ends.{
  Ends, Returns, Ends-pure, Ends-throw, Ends-then, Ends-bind, Ends-weaken, Ends-Returns,
  Ends-try_finally, Ends-of_result, Ends-raise_if,
}
use llm_inference_gpu_server.Errors.Parts.{on_second, Ends-on_second}
use llm_inference_gpu_server.Json.{Fields}
use llm_inference_gpu_server.Auth.{AuthContext, missing_api_key, ensure_model_allowed}
use llm_inference_gpu_server.Inference.Chat.{ChatCompletionRequest}
use llm_inference_gpu_server.Inference.Tokens.{
  TokenEstimator, Limits, UsageRecord, build_token_plan,
}
use llm_inference_gpu_server.Inference.Audit.{Hashing, AuditStart}
use llm_inference_gpu_server.Inference.Ports.{
  Ports, PortsLaws, Same, Quiet, Quiet-pure, Quiet-throw, Quiet-of_result, Quiet-try_except,
  Quiet-bind, Quiet-then, Quiet-on_first, Quiet-on_second,
}
use llm_inference_gpu_server.Routes.ChatCompletions.{
  AppState, json, streaming, Admitted, record_usage, emit_usage_analytics, account, failed,
  answered, complete, or_empty, create_chat_completion,
}

module _ {S L : Type 0} {ports : Ports S L} (laws : PortsLaws ports) where
  abbrev pub admits : AppState × S → ℕ
  admits w = laws.admits w.1

  abbrev pub releases : AppState × S → ℕ
  releases w = laws.releases w.1

  pub emit_usage_analytics-Quiet :
      (auth_context : AuthContext) (request_id model : String) (u : UsageRecord) (latency_ms : ℤ)
      → (error_code : Option String)
      → Quiet laws.admits laws.releases
          (emit_usage_analytics ports auth_context request_id model u latency_ms error_code)
  unfolding emit_usage_analytics
  emit_usage_analytics-Quiet auth_context request_id model u latency_ms error_code =
      Quiet-try_except laws.admits laws.releases _ (λ _. pure tt)
        (Quiet-bind laws.admits laws.releases _ _ laws.utc_now_law (λ now.
          Quiet-bind laws.admits laws.releases _ _ (laws.collect_law _)
            (λ _. Quiet-pure laws.admits laws.releases tt)))
        (λ _. Quiet-pure laws.admits laws.releases tt)

  second :
      {A : Type 0} (m : Action S A)
      → Quiet laws.admits laws.releases m
      → Quiet admits releases (on_second m)
  second m h = Quiet-on_second laws.admits laws.releases m h

  pub account-Quiet :
      (a : Admitted L) (u : UsageRecord) (error_code : Option String)
      → Quiet admits releases (account ports a u error_code)
  unfolding account
  account-Quiet a u error_code =
      Quiet-then admits releases _ _ (Quiet-on_first laws.admits laws.releases (record_usage u)) (
        Quiet-bind admits releases _ _ (second ports.elapsed_ms laws.elapsed_ms_law) (λ latency_ms.
          Quiet-then admits releases _ _ (second _ (laws.finalize_audit_law _))
            (second _ (emit_usage_analytics-Quiet _ _ _ u latency_ms error_code))))

  failed-Quiet : (a : Admitted L) (exc : Exc) → Quiet admits releases (failed ports a exc)
  unfolding failed
  failed-Quiet a exc =
      Quiet-then admits releases _ _ (second _ (laws.finalize_tokens_law a.lease (pos 0) true))
        (Quiet-then admits releases _ _ (account-Quiet a _ _) (Quiet-throw admits releases exc))

  answered-Quiet :
      (estimator : TokenEstimator) (a : Admitted L) (payload : Fields)
      → Quiet admits releases (answered ports estimator a payload)
  unfolding answered
  answered-Quiet estimator a payload =
      Quiet-bind admits releases _ _ (second _ (laws.create_chat_completion_law payload))
        (λ response. Quiet-bind admits releases _ _ (Quiet-of_result admits releases _) (λ u.
          Quiet-then admits releases _ _
            (second _ (laws.finalize_tokens_law a.lease u.total_tokens false))
            (Quiet-then admits releases _ _ (account-Quiet a u none)
              (Quiet-pure admits releases (json response)))))

  -- The lease is released, once.
  abbrev pub ReleasedOnce : AppState × S → AppState × S → Type 0
  ReleasedOnce w v = (admits v ≡ admits w) × (releases v ≡ releases w + 1)

  complete-ReleasedOnce :
      (estimator : TokenEstimator) (a : Admitted L) (payload : Fields) (w : AppState × S)
      → Ends
          (λ _ v. ReleasedOnce w v)
          (λ _ v. ReleasedOnce w v)
          (complete ports estimator a payload w)
  unfolding complete
  complete-ReleasedOnce estimator a payload w =
      Ends-try_finally _ (on_second (ports.release a.lease)) w (tried.ends w)
        (λ _ v h. released v h) (λ _ v h. released v h)
    where
      tried :
          Quiet admits releases (try_except (answered ports estimator a payload) (failed ports a))
      tried =
          Quiet-try_except admits releases (answered ports estimator a payload) (failed ports a)
            (answered-Quiet estimator a payload) (failed-Quiet a)

      released :
          (v : AppState × S)
          → Same admits releases w v
          → Ends
              (λ _ u. ReleasedOnce w u)
              (λ _ u. ReleasedOnce w u)
              (on_second (ports.release a.lease) v)
      released v h =
          Ends-weaken (on_second (ports.release a.lease) v)
            (Ends-on_second (ports.release a.lease) v.0 v.1 (laws.release_law a.lease v.1))
            (λ _ u g. (g.0.0 ∙ h.0, g.0.1 ∙ ap (λ n. n + 1) h.1))
            (λ _ u g. (g.0.0 ∙ h.0, g.0.1 ∙ ap (λ n. n + 1) h.1))

  -- The request was admitted once, and its lease was released once, or was handed to the generator
  -- of the stream.
  abbrev pub Served : Bool → AppState × S → AppState × S → Type 0
  Served true w v = (admits v ≡ admits w + 1) × (releases v ≡ releases w)
  Served false w v = (admits v ≡ admits w + 1) × (releases v ≡ releases w + 1)

  -- The request was not admitted, or its lease was released once.
  abbrev pub NotServed : AppState × S → AppState × S → Type 0
  NotServed w v =
      Same admits releases w v ⊎ ((admits v ≡ admits w + 1) × (releases v ≡ releases w + 1))

  module _ (starts : (audit : AuditStart) (s : S) → Returns (ports.start_audit audit s))
      (estimator : TokenEstimator) (limits : Limits) (hashing : Hashing)
      (dump : ChatCompletionRequest → Fields) (request_id : Option String)
      (body : ChatCompletionRequest) where
    finish :
        (stream : Bool) (a : Admitted L) (w v : AppState × S)
        → admits v ≡ admits w + 1
        → releases v ≡ releases w
        → Ends
            (λ _ u. Served stream w u)
            (λ _ u. NotServed w u)
            ((if stream
                then pure (streaming a.lease a.record_id a.plan)
                else complete ports estimator a (dump body))
              v)
    finish true a w v h k = Ends-pure _ _ _ v (h, k)
    finish false a w v h k =
        Ends-weaken (complete ports estimator a (dump body) v)
          (complete-ReleasedOnce estimator a (dump body) v)
          (λ _ u g. (g.0 ∙ h, g.1 ∙ ap (λ n. n + 1) k))
          (λ _ u g. inr (g.0 ∙ h, g.1 ∙ ap (λ n. n + 1) k))

    pub create_chat_completion-Served :
        (auth_context : Option AuthContext) (w : AppState × S)
        → Ends
            (λ _ v. Served body.stream w v)
            (λ _ v. NotServed w v)
            (create_chat_completion ports estimator limits hashing dump auth_context request_id body
              w)
    unfolding create_chat_completion ensure_model_allowed
    create_chat_completion-Served none w = Ends-throw (app missing_api_key) _ _ w (inl (refl, refl))
    create_chat_completion-Served (some auth_context) w =
        Ends-then _ _ w
          (Ends-raise_if {P = λ _ v. v ≡ w} {R = λ _ v. NotServed w v} _ _ w (λ _. refl)
            (λ _. inl (refl, refl)))
          (λ _ v same. rw same (
            Ends-bind (of_result (build_token_plan body estimator limits)) _ w
              (Ends-of_result {P = λ _ v. v ≡ w} {R = λ _ v. NotServed w v} _ w (λ _. refl)
                (λ _. inl (refl, refl)))
              (λ plan v same. rw same (
                Ends-bind (on_second (ports.admit auth_context plan.estimated_total_tokens)) _ w
                  (Ends-on_second _ w.0 w.1
                    (laws.admit_law auth_context plan.estimated_total_tokens w.1))
                  (λ lease u h.
                    Ends-bind (on_second _) _ u
                      (Ends-on_second _ u.0 u.1
                        (Ends-Returns _ (starts _ u.1) ((laws.start_audit_law _).ends u.1)))
                      (λ record_id v g.
                        finish body.stream
                          (record {
                            lease = lease;
                            record_id = record_id;
                            plan = plan;
                            auth_context = auth_context;
                            request_id = or_empty request_id;
                            model = body.model;
                          })
                          w v (g.0.0 ∙ h.0.0) (g.0.1 ∙ h.0.1))
                      (λ _ _ no. absurd no.0))
                  (λ _ u h. inl h.0)))
              (λ _ _ h. h)))
          (λ _ _ h. h)
