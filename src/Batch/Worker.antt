-- ===== src/Batch/Worker.antt =====
-- `BatchWorker` (backend/services/batch/batch_worker.py): one job of the queue is run. The report to
-- Sentry is left out.
pub mod Balance
pub mod Settled
pub mod Once
pub mod QueueKept
pub mod Drain
mod Tests
use llm_inference_gpu_server.Common.{
  ⊤, String, Bool, true, false, Option, none, some, if◌then◌else◌,
}
use llm_inference_gpu_server.Common.Int.{ℤ, pos}
use llm_inference_gpu_server.Errors.{
  Exc, app, other, Result, ok, Action, pure, of_result, ◌>>=◌, ◌>>◌, try_except, try_finally,
}
use llm_inference_gpu_server.Errors.Parts.{on_first, on_second}
use llm_inference_gpu_server.Json.{Fields}
use llm_inference_gpu_server.Auth.{AuthContext}
use llm_inference_gpu_server.Inference.Chat.{ChatCompletionRequest}
use llm_inference_gpu_server.Inference.Tokens.{
  TokenEstimator, TokenPlan, Limits, UsageRecord, build_token_plan,
}
use llm_inference_gpu_server.Inference.Tokens.Usage.{usage_from_response}
use llm_inference_gpu_server.Inference.Audit.{Hashing, build_audit_start, build_audit_final}
use llm_inference_gpu_server.Inference.Ports.{Ports}
use llm_inference_gpu_server.Routes.ChatCompletions.{error_code_of, emit_usage_analytics}
use llm_inference_gpu_server.Batch.Status.{running, is_cancelled}
use llm_inference_gpu_server.Batch.Job.{BatchJobRecord, usage_dict}
use llm_inference_gpu_server.Batch.Store.{BatchJobStore}
use llm_inference_gpu_server.Batch.Queue.{BatchQueue}

-- The variables `admission_lease` and `audit_record_id` of a run.
pub record Locals (L : Type 0) : Type 0 where
  pub admission_lease : Option L
  pub audit_record_id : Option String

abbrev pub no_locals : {L : Type 0} → Locals L
no_locals = record { admission_lease = none; audit_record_id = none }

-- `str(exc)`: an `AppError` is built from keyword arguments, so it has no `args` to print.
unfoldable pub text_of : Exc → String
text_of (app e) = ""
text_of (other code text) = text

abbrev pub failed_usage : UsageRecord
failed_usage = record {
  prompt_tokens = pos 0;
  completion_tokens = pos 0;
  total_tokens = pos 0;
  status = "failed";
}

-- The key of the job stands for its caller.
abbrev pub context_of : BatchJobRecord → AuthContext
context_of job = record {
  api_key_id = job.api_key_id;
  user_id = job.user_id;
  project_id = job.project_id;
  allowed_models = none;
}

-- What a worker is made with: the estimator, the settings, pydantic's `model_validate` of a stored
-- payload and its dump of a request, the hashing, and whether it has a collector.
pub record WorkerSettings : Type 0 where
  pub token_estimator : TokenEstimator
  pub limits : Limits
  pub chat_request_from_batch : BatchJobRecord → Result ChatCompletionRequest
  pub dump : ChatCompletionRequest → Fields
  pub hashing : Hashing
  pub has_collector : Bool

-- Assignments to the variables.
unfoldable pub set_lease : {L : Type 0} → L → Action (Locals L) ⊤
set_lease lease v = (ok tt, record v { admission_lease = some lease })

unfoldable pub set_record : {L : Type 0} → String → Action (Locals L) ⊤
set_record record_id v = (ok tt, record v { audit_record_id = some record_id })

unfoldable pub get_locals : {L : Type 0} → Action (Locals L) (Locals L)
get_locals v = (ok v, v)

module _ {S L : Type 0} (ports : Ports S L) where
  abbrev pub give_tokens_back : Option L → Action S ⊤
  give_tokens_back none = pure tt
  give_tokens_back (some lease) = ports.finalize_tokens lease (pos 0) true

  abbrev pub close_audit : Option String → String → Action S ⊤
  close_audit none code = pure tt
  close_audit (some record_id) code = do
    latency_ms ← ports.elapsed_ms
    ports.finalize_audit (build_audit_final record_id failed_usage (some latency_ms) (some code))

  abbrev pub release_lease : Option L → Action S ⊤
  release_lease none = pure tt
  release_lease (some lease) = ports.release lease

-- `await self.should_run_job()`, which is true without such a function.
abbrev pub asked : {S : Type 0} → Option (Action S Bool) → Action S Bool
asked none = pure true
asked (some f) = f

abbrev pub is_runnable : Option BatchJobRecord → Bool
is_runnable none = false
is_runnable (some job) = if is_cancelled job.status then false else true

module _ {J Q S L : Type 0} (store : BatchJobStore J) (ports : Ports S L)
    (settings : WorkerSettings) where
  -- The body of the `try` from the start of the audit on
  unfoldable pub run_admitted :
      String
      → String
      → BatchJobRecord
      → ChatCompletionRequest
      → TokenPlan
      → L
      → Action (Locals L × ((J × Q) × S)) Bool
  run_admitted request_id job_id job request plan lease = do
    record_id ← on_second (
        on_second (
          ports.start_audit (
            build_audit_start settings.hashing request_id (context_of job) request.model
              request.messages)))
    on_first (set_record record_id)
    response ← on_second (on_second (ports.create_chat_completion (settings.dump request)))
    u ← of_result (usage_from_response response plan settings.token_estimator)
    on_second (on_second (ports.finalize_tokens lease u.total_tokens false))
    latency_ms ← on_second (on_second ports.elapsed_ms)
    on_second
        (on_second (ports.finalize_audit (build_audit_final record_id u (some latency_ms) none)))
    stored ← on_second (
        on_first (
          on_first (
            store.mark_succeeded job_id response
              (usage_dict u.prompt_tokens u.completion_tokens u.total_tokens))))
    on_second (
        on_second (
          if settings.has_collector
          then emit_usage_analytics ports (context_of job) request_id request.model u latency_ms
              none
          else pure tt))
    pure true

  -- The body of the `try`
  unfoldable pub attempt : String → String → BatchJobRecord → Action (Locals L × ((J × Q) × S)) Bool
  attempt request_id job_id job = do
    request ← of_result (settings.chat_request_from_batch job)
    plan ← of_result (build_token_plan request settings.token_estimator settings.limits)
    lease ← on_second (on_second (ports.admit (context_of job) plan.estimated_total_tokens))
    on_first (set_lease lease)
    run_admitted request_id job_id job request plan lease

  -- The handler of an exception
  unfoldable pub attempt_failed : String → Exc → Action (Locals L × ((J × Q) × S)) Bool
  attempt_failed job_id exc = do
    v ← on_first get_locals
    on_second (on_second (give_tokens_back ports v.admission_lease))
    on_second
        (on_second (close_audit ports v.audit_record_id (error_code_of "batch_job_failed" exc)))
    stored ← on_second (
        on_first (
          on_first (store.mark_failed job_id (error_code_of "batch_job_failed" exc) (text_of exc))))
    pure true

  -- The `finally`
  unfoldable pub clean_up : Action (Locals L × ((J × Q) × S)) ⊤
  clean_up = do
    v ← on_first get_locals
    on_second (on_second (release_lease ports v.admission_lease))

  -- The `try` with its handler and its `finally`, where the variables start as `None`.
  unfoldable pub run_job : String → String → BatchJobRecord → Action ((J × Q) × S) Bool
  run_job request_id job_id job w =
      let (r, (v, w')) =
        try_finally (try_except (attempt request_id job_id job) (attempt_failed job_id)) clean_up
          (no_locals, w) in
      (r, w')

  module _ (queue : BatchQueue Q) (request_id : String) where
    unfoldable pub run_started : String → Option BatchJobRecord → Action ((J × Q) × S) Bool
    run_started job_id none = pure false
    run_started job_id (some job) = run_job request_id job_id job

    -- From `transition` on
    unfoldable pub start_job : String → Action ((J × Q) × S) Bool
    start_job job_id = on_first (on_first (store.transition job_id running)) >>= run_started job_id

    unfoldable pub process_job : Option (Action S Bool) → String → Action ((J × Q) × S) Bool
    process_job should_run_job job_id = do
      found ← on_first (on_first (store.get job_id))
      if is_runnable found
          then on_second (asked should_run_job) >>= (λ runs.
            if runs
            then start_job job_id
            else on_first (on_second (queue.enqueue job_id)) >> pure false)
          else pure false

    unfoldable pub process_taken :
        Option (Action S Bool) → Option String → Action ((J × Q) × S) Bool
    process_taken should_run_job none = pure false
    process_taken should_run_job (some job_id) = process_job should_run_job job_id

    -- `process_one`; `request_id` is what `generate_request_id` makes.
    unfoldable pub process_one : Option (Action S Bool) → Action ((J × Q) × S) Bool
    process_one should_run_job = on_first (on_second queue.dequeue) >>= process_taken should_run_job
