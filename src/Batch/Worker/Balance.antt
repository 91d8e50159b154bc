-- ===== src/Batch/Worker/Balance.antt =====
-- While a job runs, its variable holds the lease that was taken, if any
-- (backend/services/batch/batch_worker.py).
use llm_inference_gpu_server.Common.{
  ⊤, ℕ, ◌+◌, String, ◌≡◌, refl, ◌∙◌, ap, Bool, true, false, Option, none, some, if◌then◌else◌,
}
use llm_inference_gpu_server.Common.Int.{pos}
use llm_inference_gpu_server.Errors.{Exc, Action, pure, of_result}
use llm_inference_gpu_server.Errors.Ends.{
  Ends, Ends-then, Ends-bind, Ends-weaken, Ends-of_result, Ends-any,
}
use llm_inference_gpu_server.Errors.Parts.{on_first, on_second, Ends-on_first, Ends-on_second}
use llm_inference_gpu_server.Errors.Keeps.{
  Keeps, Keeps-pure, Keeps-of_result, Keeps-bind, Keeps-then,
}
use llm_inference_gpu_server.Inference.Chat.{ChatCompletionRequest}
use llm_inference_gpu_server.Inference.Tokens.{TokenPlan, build_token_plan}
use llm_inference_gpu_server.Inference.Ports.{Ports, PortsLaws, Same, Quiet, Quiet-pure, Quiet-bind}
use llm_inference_gpu_server.Routes.ChatCompletions.Balance.{emit_usage_analytics-Quiet}
use llm_inference_gpu_server.Batch.Job.{BatchJobRecord}
use llm_inference_gpu_server.Batch.Store.{BatchJobStore}
use llm_inference_gpu_server.Batch.Worker.{
  Locals, no_locals, WorkerSettings, set_lease, set_record, get_locals, context_of,
  give_tokens_back, close_audit, attempt, attempt_failed, run_admitted,
}

module _ {S L : Type 0} {ports : Ports S L} (laws : PortsLaws ports) (a r : ℕ) where
  -- From the counts `a` and `r` on: what is counted while the variable holds this lease.
  abbrev pub Holding : Option L → S → Type 0
  Holding none s = (laws.admits s ≡ a) × (laws.releases s ≡ r)
  Holding (some lease) s = (laws.admits s ≡ a + 1) × (laws.releases s ≡ r)

  pub Holding-Same :
      (o : Option L) (s t : S) → Holding o s → Same laws.admits laws.releases s t → Holding o t
  Holding-Same none s t h g = (g.0 ∙ h.0, g.1 ∙ h.1)
  Holding-Same (some lease) s t h g = (g.0 ∙ h.0, g.1 ∙ h.1)

  module _ {J Q : Type 0} where
    abbrev pub Inv : Locals L × ((J × Q) × S) → Type 0
    Inv v = Holding v.0.admission_lease v.1.1

    port_Keeps :
        {A : Type 0} (m : Action S A)
        → Quiet laws.admits laws.releases m
        → Keeps Inv (on_second (on_second m))
    port_Keeps m q = record {
      keeps = λ v i.
          Ends-weaken (on_second (on_second m) v)
            (Ends-on_second (on_second m) v.0 v.1 (Ends-on_second m v.1.0 v.1.1 (q.ends v.1.1)))
            (λ _ u g. moved v u i g.0.0 g.1) (λ _ u g. moved v u i g.0.0 g.1);
    }
      where
        moved :
            (v u : Locals L × ((J × Q) × S))
            → Inv v
            → Same laws.admits laws.releases v.1.1 u.1.1
            → u.0 ≡ v.0
            → Inv u
        moved v u i g e = rw e (Holding-Same v.0.admission_lease v.1.1 u.1.1 i g)

    store_Keeps : {A : Type 0} (m : Action J A) → Keeps Inv (on_second (on_first (on_first m)))
    store_Keeps m = record {
      keeps = λ v i.
          Ends-weaken (on_second (on_first (on_first m)) v)
            (Ends-on_second (on_first (on_first m)) v.0 v.1
              (Ends-on_first (on_first m) v.1.0 v.1.1 (Ends-any (on_first m v.1.0))))
            (λ _ u g. rw (g.1, g.0.1) i) (λ _ u g. rw (g.1, g.0.1) i);
    }

    get_locals-Keeps : Keeps Inv (on_first get_locals)
    unfolding on_first get_locals
    get_locals-Keeps = record { keeps = λ v i. record { holds = i } }

    set_record-Keeps : (record_id : String) → Keeps Inv (on_first (set_record record_id))
    unfolding on_first set_record
    set_record-Keeps record_id = record { keeps = λ v i. record { holds = i } }

  give_tokens_back-Quiet :
      (o : Option L) → Quiet laws.admits laws.releases (give_tokens_back ports o)
  give_tokens_back-Quiet none = Quiet-pure laws.admits laws.releases tt
  give_tokens_back-Quiet (some lease) = laws.finalize_tokens_law lease (pos 0) true

  close_audit-Quiet :
      (o : Option String) (code : String)
      → Quiet laws.admits laws.releases (close_audit ports o code)
  close_audit-Quiet none code = Quiet-pure laws.admits laws.releases tt
  close_audit-Quiet (some record_id) code =
      Quiet-bind laws.admits laws.releases _ _ laws.elapsed_ms_law
        (λ latency_ms. laws.finalize_audit_law _)

  module _ {J Q : Type 0} (store : BatchJobStore J) (settings : WorkerSettings) where
    pub attempt_failed-Keeps :
        (job_id : String) (exc : Exc)
        → Keeps (Inv {J = J} {Q = Q}) (attempt_failed store ports settings job_id exc)
    unfolding attempt_failed
    attempt_failed-Keeps job_id exc = Keeps-bind Inv _ _ get_locals-Keeps (λ v.
        Keeps-then Inv _ _ (port_Keeps _ (give_tokens_back-Quiet v.admission_lease)) (
          Keeps-then Inv _ _ (port_Keeps _ (close_audit-Quiet v.audit_record_id _))
            (Keeps-bind Inv _ _ (store_Keeps _) (λ stored. Keeps-pure Inv true))))

    emit_Keeps :
        (b : Bool) (m : Action S ⊤)
        → Quiet laws.admits laws.releases m
        → Keeps (Inv {J = J} {Q = Q}) (on_second (on_second (if b then m else pure tt)))
    emit_Keeps true m q = port_Keeps m q
    emit_Keeps false m q = port_Keeps (pure tt) (Quiet-pure laws.admits laws.releases tt)

    run_admitted-Keeps :
        (request_id job_id : String) (job : BatchJobRecord) (request : ChatCompletionRequest)
        → (plan : TokenPlan) (lease : L)
        → Keeps
            (Inv {J = J} {Q = Q})
            (run_admitted store ports settings request_id job_id job request plan lease)
    unfolding run_admitted
    run_admitted-Keeps request_id job_id job request plan lease =
        Keeps-bind Inv _ _ (port_Keeps _ (laws.start_audit_law _)) (λ record_id.
          Keeps-then Inv _ _ (set_record-Keeps record_id) (
            Keeps-bind Inv _ _ (port_Keeps _ (laws.create_chat_completion_law _)) (λ response.
              Keeps-bind Inv _ _ (Keeps-of_result Inv _) (λ u.
                Keeps-then Inv _ _
                  (port_Keeps _ (laws.finalize_tokens_law lease u.total_tokens false))
                  (Keeps-bind Inv _ _ (port_Keeps _ laws.elapsed_ms_law) (λ latency_ms.
                    Keeps-then Inv _ _ (port_Keeps _ (laws.finalize_audit_law _)) (
                      Keeps-bind Inv _ _ (store_Keeps _) (λ stored.
                        Keeps-then Inv _ _
                          (emit_Keeps settings.has_collector _
                            (emit_usage_analytics-Quiet laws _ _ _ u latency_ms none))
                          (Keeps-pure Inv true)))))))))

    set_lease-Holding :
        (lease : L) (v : Locals L × ((J × Q) × S))
        → (laws.admits v.1.1 ≡ a + 1) × (laws.releases v.1.1 ≡ r)
        → Ends {S = Locals L × ((J × Q) × S)}
            (λ _ u. Inv u)
            (λ _ u. Inv u)
            (on_first (set_lease lease) v)
    unfolding on_first set_lease
    set_lease-Holding lease v h = record { holds = h }

    pub attempt-Holding :
        (request_id job_id : String) (job : BatchJobRecord) (w : (J × Q) × S)
        → (laws.admits w.1 ≡ a) × (laws.releases w.1 ≡ r)
        → Ends {S = Locals L × ((J × Q) × S)}
            (λ _ v. Inv v)
            (λ _ v. Inv v)
            (attempt store ports settings request_id job_id job (no_locals, w))
    unfolding attempt
    attempt-Holding request_id job_id job w start =
        Ends-bind (of_result (settings.chat_request_from_batch job)) _ (no_locals, w)
          (Ends-of_result {P = λ _ v. v ≡ (no_locals, w)} {R = λ _ v. Inv v} _ (no_locals, w)
            (λ _. refl) (λ _. start))
          (λ request v same. rw same (
            Ends-bind
              (of_result (build_token_plan request settings.token_estimator settings.limits)) _
              (no_locals, w)
              (Ends-of_result {P = λ _ v. v ≡ (no_locals, w)} {R = λ _ v. Inv v} _ (no_locals, w)
                (λ _. refl) (λ _. start))
              (λ plan v same. rw same (
                Ends-bind
                  (on_second (on_second (ports.admit (context_of job) plan.estimated_total_tokens)))
                  _ (no_locals, w)
                  (Ends-on_second _ no_locals w
                    (Ends-on_second _ w.0 w.1 (laws.admit_law (context_of job) _ w.1)))
                  (λ lease v h.
                    Ends-then (on_first (set_lease lease)) _ v
                      (set_lease-Holding lease v
                        (h.0.0.0 ∙ ap (λ n. n + 1) start.0, h.0.0.1 ∙ start.1))
                      (λ _ u i.
                        (run_admitted-Keeps request_id job_id job request plan lease).keeps u i)
                      (λ _ _ i. i))
                  (λ _ v h. rw h.1 (h.0.0.0 ∙ start.0, h.0.0.1 ∙ start.1))))
              (λ _ _ i. i)))
          (λ _ _ i. i)
