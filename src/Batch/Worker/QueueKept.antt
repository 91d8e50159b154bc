-- ===== src/Batch/Worker/QueueKept.antt =====
-- What a worker does with a job that it has taken leaves the queue as it is
-- (backend/services/batch/batch_worker.py).
use llm_inference_gpu_server.Common.{
  String, ◌≡◌, refl, ap, ◌∙◌, Bool, true, false, Option, none, some, inl, inr, Bool-cases,
}
use llm_inference_gpu_server.Errors.{Exc, Result, ok, raise, Action, try_except, try_finally}
use llm_inference_gpu_server.Errors.Ends.{Ends, Ends-pure, Ends-bind, Ends-weaken, Ends-any}
use llm_inference_gpu_server.Errors.Keeps.{
  Keeps, Keeps-pure, Keeps-of_result, Keeps-bind, Keeps-then, Keeps-try_except, Keeps-try_finally,
}
use llm_inference_gpu_server.Errors.Parts.{on_first, on_second, Ends-on_first, Ends-on_second}
use llm_inference_gpu_server.Inference.Ports.{Ports}
use llm_inference_gpu_server.Inference.Chat.{ChatCompletionRequest}
use llm_inference_gpu_server.Inference.Tokens.{TokenPlan}
use llm_inference_gpu_server.Batch.Job.{BatchJobRecord}
use llm_inference_gpu_server.Batch.Store.{BatchJobStore}
use llm_inference_gpu_server.Batch.Queue.{BatchQueue}
use llm_inference_gpu_server.Batch.Worker.{
  Locals, no_locals, WorkerSettings, run_admitted, attempt, attempt_failed, clean_up, run_job,
  run_started, process_taken, asked, is_runnable, start_job, process_job,
}

-- The queue stays as it is.
module _ {J Q S : Type 0} (q : Q) where
  abbrev pub SameQueue : (J × Q) × S → Type 0
  SameQueue w = w.0.1 ≡ q

  store_call : {A : Type 0} (m : Action J A) → Keeps SameQueue (on_first (on_first m))
  store_call m = record {
    keeps = λ w h.
        Ends-weaken _
          (Ends-on_first (on_first m) w.0 w.1 (Ends-on_first m w.0.0 w.0.1 (Ends-any (m w.0.0))))
          (λ _ u g. g.0.1 ∙ h) (λ _ u g. g.0.1 ∙ h);
  }

  port_call : {A : Type 0} (m : Action S A) → Keeps SameQueue (on_second m)
  port_call m = record {
    keeps = λ w h.
        Ends-weaken _ (Ends-on_second m w.0 w.1 (Ends-any (m w.1))) (λ _ u g. ap (λ x. x.1) g.1 ∙ h)
          (λ _ u g. ap (λ x. x.1) g.1 ∙ h);
  }

  module _ {L : Type 0} where
    abbrev pub SameQueueLocals : Locals L × ((J × Q) × S) → Type 0
    SameQueueLocals v = SameQueue v.1

    local_call : {A : Type 0} (m : Action (Locals L) A) → Keeps SameQueueLocals (on_first m)
    local_call m = record {
      keeps = λ v h.
          Ends-weaken _ (Ends-on_first m v.0 v.1 (Ends-any (m v.0)))
            (λ _ u g. ap (λ x. x.0.1) g.1 ∙ h) (λ _ u g. ap (λ x. x.0.1) g.1 ∙ h);
    }

    outer_call :
        {A : Type 0} (m : Action ((J × Q) × S) A)
        → Keeps SameQueue m
        → Keeps SameQueueLocals (on_second m)
    outer_call m k = record {
      keeps = λ v h.
          Ends-weaken _ (Ends-on_second m v.0 v.1 (k.keeps v.1 h)) (λ _ u g. g.0) (λ _ u g. g.0);
    }

    port : {A : Type 0} (m : Action S A) → Keeps SameQueueLocals (on_second (on_second m))
    port m = outer_call (on_second m) (port_call m)

    stored :
        {A : Type 0} (m : Action J A) → Keeps SameQueueLocals (on_second (on_first (on_first m)))
    stored m = outer_call (on_first (on_first m)) (store_call m)

module _ {J Q S L : Type 0} (store : BatchJobStore J) (ports : Ports S L)
    (settings : WorkerSettings) (q : Q) where
  run_admitted-Keeps :
      (request_id job_id : String) (job : BatchJobRecord) (request : ChatCompletionRequest)
      (plan : TokenPlan) (lease : L)
      → Keeps
          (SameQueueLocals {J = J} {Q = Q} {S = S} q)
          (run_admitted store ports settings request_id job_id job request plan lease)
  unfolding run_admitted
  run_admitted-Keeps request_id job_id job request plan lease =
      Keeps-bind _ _ _ (port q _) (λ record_id. Keeps-then _ _ _ (local_call q _) (
        Keeps-bind _ _ _ (port q _) (λ response. Keeps-bind _ _ _ (Keeps-of_result _ _) (λ u.
          Keeps-then _ _ _ (port q _) (
            Keeps-bind _ _ _ (port q _) (λ latency_ms. Keeps-then _ _ _ (port q _) (
              Keeps-bind _ _ _ (stored q _)
                (λ found. Keeps-then _ _ _ (port q _) (Keeps-pure _ true)))))))))

  attempt-Keeps :
      (request_id job_id : String) (job : BatchJobRecord)
      → Keeps
          (SameQueueLocals {J = J} {Q = Q} {S = S} q)
          (attempt store ports settings request_id job_id job)
  unfolding attempt
  attempt-Keeps request_id job_id job = Keeps-bind _ _ _ (Keeps-of_result _ _) (λ request.
      Keeps-bind _ _ _ (Keeps-of_result _ _) (λ plan. Keeps-bind _ _ _ (port q _) (λ lease.
        Keeps-then _ _ _ (local_call q _)
          (run_admitted-Keeps request_id job_id job request plan lease))))

  attempt_failed-Keeps :
      (job_id : String) (exc : Exc)
      → Keeps
          (SameQueueLocals {J = J} {Q = Q} {S = S} q)
          (attempt_failed store ports settings job_id exc)
  unfolding attempt_failed
  attempt_failed-Keeps job_id exc = Keeps-bind _ _ _ (local_call q _) (λ v.
      Keeps-then _ _ _ (port q _)
        (Keeps-then _ _ _ (port q _) (Keeps-bind _ _ _ (stored q _) (λ found. Keeps-pure _ true))))

  clean_up-Keeps : Keeps (SameQueueLocals {J = J} {Q = Q} {S = S} q) (clean_up store ports settings)
  unfolding clean_up
  clean_up-Keeps = Keeps-bind _ _ _ (local_call q _) (λ v. port q _)

  run_job-Keeps :
      (request_id job_id : String) (job : BatchJobRecord)
      → Keeps
          (SameQueue {J = J} {Q = Q} {S = S} q)
          (run_job store ports settings request_id job_id job)
  unfolding run_job
  run_job-Keeps request_id job_id job = record {
    keeps = λ w h.
        dropped
          (try_finally
            (try_except (attempt store ports settings request_id job_id job)
              (attempt_failed store ports settings job_id))
            (clean_up store ports settings) (no_locals, w))
          ((Keeps-try_finally _ _ _
              (Keeps-try_except _ _ _ (attempt-Keeps request_id job_id job)
                (attempt_failed-Keeps job_id))
              clean_up-Keeps).keeps
            (no_locals, w) h);
  }
    where
      dropped :
          (x : Result Bool × (Locals L × ((J × Q) × S)))
          → Ends (λ _ v. SameQueue q v.1) (λ _ v. SameQueue q v.1) x
          → Ends {S = (J × Q) × S}
              (λ _ w. SameQueue q w)
              (λ _ w. SameQueue q w)
              (let (r, (v, w)) = x in (r, w))
      dropped (ok b, (v, w)) h = record { holds = h.holds }
      dropped (raise e, (v, w)) h = record { holds = h.holds }

  module _ (queue : BatchQueue Q) (request_id : String) where
    run_started-Keeps :
        (job_id : String) (o : Option BatchJobRecord)
        → Keeps
            (SameQueue {J = J} {Q = Q} {S = S} q)
            (run_started store ports settings queue request_id job_id o)
    unfolding run_started
    run_started-Keeps job_id none = Keeps-pure _ false
    run_started-Keeps job_id (some job) = run_job-Keeps request_id job_id job

    start_job-Keeps :
        (job_id : String)
        → Keeps
            (SameQueue {J = J} {Q = Q} {S = S} q)
            (start_job store ports settings queue request_id job_id)
    unfolding start_job
    start_job-Keeps job_id = Keeps-bind _ _ _ (store_call q _) (run_started-Keeps job_id)

    asked-true :
        (w : (J × Q) × S)
        → SameQueue q w
        → Ends (λ b v. (b ≡ true) × SameQueue q v) (λ _ v. SameQueue q v) (on_second (asked none) w)
    asked-true w h =
        Ends-weaken _
          (Ends-on_second (asked none) w.0 w.1
            (Ends-pure true (λ b _. b ≡ true) (λ _ _. ⊥) w.1 refl))
          (λ b v g. (g.0, ap (λ x. x.1) g.1 ∙ h)) (λ _ _ g. absurd g.0)

    process_job-Keeps :
        (job_id : String)
        → Keeps
            (SameQueue {J = J} {Q = Q} {S = S} q)
            (process_job store ports settings queue request_id none job_id)
    unfolding process_job
    process_job-Keeps job_id = Keeps-bind _ _ _ (store_call q _) (λ found.
        elim (Bool-cases (is_runnable found)) [
          | inl e ↦ rw e (record {
            keeps = λ w h.
                Ends-bind _ _ w (asked-true w h)
                  (λ b v g. rw g.0 ((start_job-Keeps job_id).keeps v g.1)) (λ _ _ g. g);
          })
          | inr e ↦ rw e (Keeps-pure _ false)
        ])

    pub process_taken-Keeps :
        (o : Option String)
        → Keeps
            (SameQueue {J = J} {Q = Q} {S = S} q)
            (process_taken store ports settings queue request_id none o)
    unfolding process_taken
    process_taken-Keeps none = Keeps-pure _ false
    process_taken-Keeps (some job_id) = process_job-Keeps job_id
