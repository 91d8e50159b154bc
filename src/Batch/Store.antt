-- ===== src/Batch/Store.antt =====
-- The store of batch jobs (backend/services/batch/batch_service.py): the protocol `BatchJobStore` as
-- an interface with its contract, and `InMemoryBatchJobStore`, which keeps it.
pub mod Memory
use llm_inference_gpu_server.Common.{
  ⊤, ℕ, String, ◌≡◌, ◌≢◌, ◌⊎◌, Bool, Option, none, some, List, [], ◌∷◌,
}
use llm_inference_gpu_server.Errors.{Action}
use llm_inference_gpu_server.Errors.Ends.{Ends}
use llm_inference_gpu_server.Json.{Fields}
use llm_inference_gpu_server.Auth.{AuthContext}
use llm_inference_gpu_server.Batch.Status.{Status, queued}
use llm_inference_gpu_server.Batch.Job.{
  BatchJobRecord, new_job, transitioned, marked_succeeded, marked_failed,
}

-- `BatchJobStore`, over the state `J` of the store. `create` is given the fresh identifier.
pub record BatchJobStore (J : Type 0) : Type 0 where
  pub create : String → AuthContext → Fields → String → Action J BatchJobRecord
  pub get : String → Action J (Option BatchJobRecord)
  pub transition : String → Status → Action J (Option BatchJobRecord)
  pub mark_succeeded : String → Fields → Fields → Action J (Option BatchJobRecord)
  pub mark_failed : String → String → String → Action J (Option BatchJobRecord)
  pub list_recoverable : ℕ → Action J (List BatchJobRecord)

-- A change of one job: the job it writes, or none where the job is missing or is left alone.
abbrev pub written :
    (BatchJobRecord → Option BatchJobRecord) → Option BatchJobRecord → Option BatchJobRecord
written f none = none
written f (some job) = f job

-- The job that is stored then.
abbrev pub or_old : Option BatchJobRecord → Option BatchJobRecord → Option BatchJobRecord
or_old none old = old
or_old (some job) old = some job

module _ {J : Type 0} (find : J → String → Option BatchJobRecord) where
  abbrev pub SameJobs : J → J → Type 0
  SameJobs s t = (j : String) → find t j ≡ find s j

  -- The job at `id` is now `o`, and no other has changed.
  abbrev pub Stored : String → Option BatchJobRecord → J → J → Type 0
  Stored id o s t = (find t id ≡ o) × ((j : String) → j ≢ id → find t j ≡ find s j)

  -- An operation that writes `f` to the job at `id` answers with the job that it wrote. One that
  -- raises has written or not.
  abbrev pub Writes :
      String
      → (BatchJobRecord → Option BatchJobRecord)
      → Action J (Option BatchJobRecord)
      → J
      → Type 0
  Writes id f m s =
      Ends (λ r t. (r ≡ written f (find s id)) × Stored id (or_old r (find s id)) s t)
        (λ _ t. Stored id (or_old (written f (find s id)) (find s id)) s t ⊎ SameJobs s t) (m s)

-- Each listed job is queued.
abbrev pub AllQueued : List BatchJobRecord → Type 0
AllQueued [] = ⊤
AllQueued (job ∷ jobs) = (job.status ≡ queued) × AllQueued jobs

pub record StoreLaws {J : Type 0} (store : BatchJobStore J) : Type 0 where
  pub find : J → String → Option BatchJobRecord
  pub create_law :
      (id : String) (auth_context : AuthContext) (payload : Fields) (model : String) (s : J)
      → find s id ≡ none
      → let job = new_job id auth_context payload model in
        Ends
          (λ r t. (r ≡ job) × Stored find id (some job) s t)
          (λ _ t. Stored find id (some job) s t ⊎ SameJobs find s t)
          (store.create id auth_context payload model s)
  pub get_law :
      (id : String) (s : J)
      → Ends
          (λ r t. (r ≡ find s id) × SameJobs find s t)
          (λ _ t. SameJobs find s t)
          (store.get id s)
  pub transition_law :
      (id : String) (target : Status) (s : J)
      → Writes find id (transitioned target) (store.transition id target) s
  pub mark_succeeded_law :
      (id : String) (result usage : Fields) (s : J)
      → Writes find id (marked_succeeded result usage) (store.mark_succeeded id result usage) s
  pub mark_failed_law :
      (id : String) (error_code error_message : String) (s : J)
      → Writes find id
          (marked_failed error_code error_message)
          (store.mark_failed id error_code error_message)
          s
  pub list_recoverable_law :
      (limit : ℕ) (s : J)
      → Ends
          (λ r t. AllQueued r × SameJobs find s t)
          (λ _ t. SameJobs find s t)
          (store.list_recoverable limit s)
