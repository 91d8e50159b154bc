-- ===== src/Routes/BatchJobs/Access.antt =====
-- A caller sees and gives up only the jobs of its user and project
-- (backend/api/routes/batch_jobs.py).
use llm_inference_gpu_server.Common.{String, ◌≡◌, refl, false, some, eq_iff, arith}
use llm_inference_gpu_server.Errors.{pure, ◌>>=◌}
use llm_inference_gpu_server.Errors.Ends.{Ends, Returns, Ends-pure, Ends-bind}
use llm_inference_gpu_server.Auth.{AuthContext}
use llm_inference_gpu_server.Batch.Status.{Status}
use llm_inference_gpu_server.Batch.Job.{BatchJobRecord, to_response, can_access_job}
use llm_inference_gpu_server.Batch.Store.{BatchJobStore, StoreLaws, SameJobs}
use llm_inference_gpu_server.Batch.Service.{is_denied, get_job}
use llm_inference_gpu_server.Batch.Service.Access.{NotFound, get_job-Seen}
use llm_inference_gpu_server.Routes.BatchJobs.{required_context, get_batch_job}

-- The job is of this user and project.
abbrev pub Owned : AuthContext → BatchJobRecord → Type 0
Owned auth_context job =
    (job.user_id ≡ auth_context.user_id) × (job.project_id ≡ auth_context.project_id)

is_denied-Owned :
    (auth_context : AuthContext) (job : BatchJobRecord)
    → is_denied (some auth_context) job ≡ false
    → Owned auth_context job
unfolding is_denied can_access_job
is_denied-Owned auth_context job h = (
  ground (arith, eq_iff job.user_id auth_context.user_id, h),
  ground (arith, eq_iff job.project_id auth_context.project_id, h),
)

module _ {J : Type 0} {store : BatchJobStore J} (laws : StoreLaws store)
    (gets : (id : String) (s : J) → Returns (store.get id s)) (id : String)
    (auth_context : AuthContext) (s : J) where
  pub get_batch_job-Owned :
      Ends
        (λ r t.
          (job : BatchJobRecord) × (laws.find s id ≡ some job)
          × Owned auth_context job
          × (r ≡ to_response job)
          × SameJobs laws.find s t)
        (λ e t. NotFound laws id (some auth_context) s e t)
        (get_batch_job store id (some auth_context) s)
  unfolding get_batch_job required_context pure ◌>>=◌
  get_batch_job-Owned =
      Ends-bind (get_job store id (some auth_context)) (λ job. pure (to_response job)) s
        (get_job-Seen laws id (some auth_context) s (gets id s))
        (λ job t h.
          Ends-pure (to_response job) _ _ t
            (job, h.0.0, is_denied-Owned auth_context job h.0.1, refl, h.1))
        (λ _ _ e. e)
