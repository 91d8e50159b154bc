-- ===== src/Batch/Service/Access.antt =====
-- Who may read and give up a job, and what that does (backend/services/batch/batch_service.py).
use llm_inference_gpu_server.Common.{
  String, ◌≡◌, refl, sym, ◌⊎◌, inl, inr, true, false, Option, none, some, if◌then◌else◌,
}
use llm_inference_gpu_server.Errors.{Exc, app, pure, raise_if}
use llm_inference_gpu_server.Errors.Ends.{
  Ends, Returns, Ends-pure, Ends-throw, Ends-then, Ends-bind, Ends-raise_if, Ends-Returns,
}
use llm_inference_gpu_server.Auth.{AuthContext}
use llm_inference_gpu_server.Batch.Status.{Status, can_transition, cancelled}
use llm_inference_gpu_server.Batch.Job.{BatchJobRecord}
use llm_inference_gpu_server.Batch.Store.{BatchJobStore, StoreLaws, Stored, SameJobs}
use llm_inference_gpu_server.Batch.Service.{is_denied, found, get_job, batch_job_not_found}

-- The job after `cancel`: it is cancelled if it still can be.
abbrev pub given_up : BatchJobRecord → BatchJobRecord
given_up job =
    if can_transition job.status cancelled then record job { status = cancelled } else job

module _ {J : Type 0} {store : BatchJobStore J} (laws : StoreLaws store) where
  module _ (id : String) (auth_context : Option AuthContext) (s : J) where
    -- There is no such job that this caller may see.
    abbrev pub Hidden : Type 0
    Hidden =
        (laws.find s id ≡ none)
        ⊎ ((job : BatchJobRecord) × (laws.find s id ≡ some job)
            × (is_denied auth_context job ≡ true))

    abbrev pub Seen : BatchJobRecord → Type 0
    Seen job = (laws.find s id ≡ some job) × (is_denied auth_context job ≡ false)

    abbrev pub NotFound : Exc → J → Type 0
    NotFound e t = (e ≡ app batch_job_not_found) × Hidden × SameJobs laws.find s t

    found-Ends :
        (o : Option BatchJobRecord) (t : J)
        → laws.find s id ≡ o
        → SameJobs laws.find s t
        → Ends (λ r u. Seen r × SameJobs laws.find s u) NotFound (found auth_context o t)
    unfolding found
    found-Ends none t h same = Ends-throw (app batch_job_not_found) _ _ t (refl, inl h, same)
    found-Ends (some job) t h same =
        Ends-then (raise_if (is_denied auth_context job) (app batch_job_not_found)) (pure job) t
          (Ends-raise_if {P = λ _ u. Seen job × SameJobs laws.find s u} {R = NotFound}
            (is_denied auth_context job) (app batch_job_not_found) t (λ d. ((h, d), same))
            (λ d. (refl, inr (job, h, d), same)))
          (λ _ u g. Ends-pure job _ _ u g) (λ _ _ g. g)

    pub get_job-Seen :
        Returns (store.get id s)
        → Ends (λ r u. Seen r × SameJobs laws.find s u) NotFound (get_job store id auth_context s)
    unfolding get_job
    get_job-Seen returns =
        Ends-bind (store.get id) (found auth_context) s
          (Ends-Returns (store.get id s) returns (laws.get_law id s))
          (λ o t h. found-Ends o t (sym h.0) h.1) (λ _ _ no. absurd no)

  module _ (id : String) (auth_context : Option AuthContext) (job : BatchJobRecord) (t : J) where
    abbrev pub GaveUp : BatchJobRecord → J → Type 0
    GaveUp r u = (r ≡ given_up job) × Stored laws.find id (some r) t u

    left_alone :
        laws.find t id ≡ some job → can_transition job.status cancelled ≡ false → GaveUp job t
    left_alone h c = (rw c refl, (h, λ j n. refl))

  module _ (gets : (id : String) (s : J) → Returns (store.get id s))
      (transitions : (id : String) (target : Status) (s : J)
        → Returns (store.transition id target s))
      (id : String) (auth_context : Option AuthContext) (s : J) where
    abbrev pub GivenUp : BatchJobRecord → J → Type 0
    GivenUp r t =
        (job : BatchJobRecord) × Seen id auth_context s job
        × (r ≡ given_up job)
        × Stored laws.find id (some r) s t
