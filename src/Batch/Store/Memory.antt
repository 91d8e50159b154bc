-- ===== src/Batch/Store/Memory.antt =====
-- `InMemoryBatchJobStore` (backend/services/batch/batch_service.py): a dictionary of jobs.
use llm_inference_gpu_server.Common.{
  ℕ, zero, suc, String, ◌≡◌, refl, sym, ◌⊎◌, inl, inr, true, Option, none, some, List, [], ◌∷◌,
  take, if◌then◌else◌, Bool-cases,
}
use llm_inference_gpu_server.Common.Dict.{Dict, get, put, values, get-put_self, get-put_ne}
use llm_inference_gpu_server.Errors.{Action, ok}
use llm_inference_gpu_server.Errors.Ends.{Ends}
use llm_inference_gpu_server.Json.{Fields}
use llm_inference_gpu_server.Auth.{AuthContext}
use llm_inference_gpu_server.Batch.Status.{
  Status, queued, is_queued, running, succeeded, failed, cancelled, other_status,
}
use llm_inference_gpu_server.Batch.Job.{
  BatchJobRecord, new_job, transitioned, marked_succeeded, marked_failed,
}
use llm_inference_gpu_server.Batch.Store.{
  BatchJobStore, StoreLaws, written, or_old, SameJobs, Stored, Writes, AllQueued,
}

abbrev pub Jobs : Type 0
Jobs = Dict BatchJobRecord

-- `self.jobs[id]` is changed in place, where there is something to write.
unfoldable pub write_job : String → Option BatchJobRecord → Jobs → Jobs
write_job id none jobs = jobs
write_job id (some job) jobs = put jobs id job

-- `transition`, `mark_succeeded` and `mark_failed`
unfoldable pub update_job :
    String → (BatchJobRecord → Option BatchJobRecord) → Action Jobs (Option BatchJobRecord)
update_job id f jobs = let r = written f (get jobs id) in (ok r, write_job id r jobs)

-- `[job for job in self.jobs.values() if job.status == QUEUED]`
unfoldable pub queued_jobs : List BatchJobRecord → List BatchJobRecord
queued_jobs [] = []
queued_jobs (job ∷ jobs) =
    let rest = queued_jobs jobs in if is_queued job.status then job ∷ rest else rest

unfoldable pub create : String → AuthContext → Fields → String → Action Jobs BatchJobRecord
create id auth_context payload model jobs =
    let job = new_job id auth_context payload model in (ok job, put jobs id job)

unfoldable pub list_recoverable : ℕ → Action Jobs (List BatchJobRecord)
list_recoverable limit jobs = (ok (take limit (queued_jobs (values jobs))), jobs)

abbrev pub in_memory_store : BatchJobStore Jobs
in_memory_store = record {
  create = create;
  get = λ id jobs. (ok (get jobs id), jobs);
  transition = λ id target. update_job id (transitioned target);
  mark_succeeded = λ id result usage. update_job id (marked_succeeded result usage);
  mark_failed = λ id code message. update_job id (marked_failed code message);
  list_recoverable = list_recoverable;
}

pub queued_jobs-AllQueued : (jobs : List BatchJobRecord) → AllQueued (queued_jobs jobs)
unfolding queued_jobs
queued_jobs-AllQueued [] = tt
queued_jobs-AllQueued (job ∷ jobs) = elim (Bool-cases (is_queued job.status)) [
  | inl h ↦ rw h (queued_of job.status h, queued_jobs-AllQueued jobs)
  | inr h ↦ rw h (queued_jobs-AllQueued jobs)
]
  where
    queued_of : (s : Status) → is_queued s ≡ true → s ≡ queued
    queued_of queued h = refl
    queued_of running h = absurd (cc)
    queued_of succeeded h = absurd (cc)
    queued_of failed h = absurd (cc)
    queued_of cancelled h = absurd (cc)
    queued_of (other_status x) h = absurd (cc)

pub take-AllQueued : (n : ℕ) (jobs : List BatchJobRecord) → AllQueued jobs → AllQueued (take n jobs)
take-AllQueued zero jobs h = tt
take-AllQueued (suc n) [] h = tt
take-AllQueued (suc n) (job ∷ jobs) (q, h) = (q, take-AllQueued n jobs h)

pub put-Stored :
    (jobs : Jobs) (id : String) (job : BatchJobRecord)
    → Stored get id (some job) jobs (put jobs id job)
put-Stored jobs id job =
    (get-put_self jobs id job, λ j h. get-put_ne jobs id j job (λ p. h (sym p)))

pub update_job-Writes :
    (id : String) (f : BatchJobRecord → Option BatchJobRecord) (jobs : Jobs)
    → Writes get id f (update_job id f) jobs
unfolding update_job write_job
update_job-Writes id f jobs = record { holds = (refl, go (written f (get jobs id))) }
  where
    go :
        (r : Option BatchJobRecord)
        → Stored get id (or_old r (get jobs id)) jobs (write_job id r jobs)
    go none = (refl, λ j h. refl)
    go (some job) = put-Stored jobs id job

pub create-Ends :
    (id : String) (auth_context : AuthContext) (payload : Fields) (model : String) (jobs : Jobs)
    → get jobs id ≡ none
    → let job = new_job id auth_context payload model in
      Ends
        (λ r t. (r ≡ job) × Stored get id (some job) jobs t)
        (λ _ t. Stored get id (some job) jobs t ⊎ SameJobs get jobs t)
        (create id auth_context payload model jobs)
unfolding create
create-Ends id auth_context payload model jobs fresh = record {
  holds = (refl, put-Stored jobs id (new_job id auth_context payload model));
}

pub list_recoverable-Ends :
    (limit : ℕ) (jobs : Jobs)
    → Ends
        (λ r t. AllQueued r × SameJobs get jobs t)
        (λ _ t. SameJobs get jobs t)
        (list_recoverable limit jobs)
unfolding list_recoverable
list_recoverable-Ends limit jobs =
    let all = queued_jobs (values jobs) in
    record { holds = (take-AllQueued limit all (queued_jobs-AllQueued (values jobs)), λ j. refl) }

abbrev pub in_memory_laws : StoreLaws in_memory_store
in_memory_laws = record {
  find = get;
  create_law = create-Ends;
  get_law = λ id jobs. record { holds = (refl, λ j. refl) };
  transition_law = λ id target jobs. update_job-Writes id (transitioned target) jobs;
  mark_succeeded_law =
      λ id result usage jobs. update_job-Writes id (marked_succeeded result usage) jobs;
  mark_failed_law = λ id code message jobs. update_job-Writes id (marked_failed code message) jobs;
  list_recoverable_law = list_recoverable-Ends;
}
