-- ===== src/Batch/Contract/Records.antt =====
-- A store that keeps the records themselves, as `InMemoryBatchJobStore` does
-- (backend/services/batch/batch_service.py), keeps the contract, too.
use mathlib.Core.Option
use mathlib.Core.Path.{fun_ext}
use llm_inference_gpu_server.Common.{
  ℕ, String, ◌≡◌, refl, sym, ap, ◌∙◌, true, false, Option, none, some, ◌⊎◌, inl, inr, if◌then◌else◌,
  str_eq, eq_iff, Bool-cases,
}
use llm_inference_gpu_server.Errors.{Action}
use llm_inference_gpu_server.Errors.Ends.{Ends, Ends-weaken}
use llm_inference_gpu_server.Json.{Fields}
use llm_inference_gpu_server.Auth.{AuthContext}
use llm_inference_gpu_server.Batch.Status.{Status, is_cancelled, can_transition}
use llm_inference_gpu_server.Batch.Job.{
  BatchJobRecord, new_job, transitioned, marked_succeeded, marked_failed,
}
use llm_inference_gpu_server.Batch.Store.{
  BatchJobStore, StoreLaws, SameJobs, Stored, Writes, written, AllQueued,
}
use llm_inference_gpu_server.Batch.Store
use llm_inference_gpu_server.Batch.Contract.{
  JobView, Jobs, view, is_failed, view_transitioned, view_succeeded, view_failed, applied, put_at,
  or_old, Changes, Contract,
}

-- Each operation on the records is the one on what is seen of them.
pub transitioned-view :
    (target : Status) (job : BatchJobRecord)
    → is_failed target ≡ false
    → view_transitioned target (view job) ≡ Option.map view (transitioned target job)
unfolding view_transitioned transitioned
transitioned-view target job f = elim (Bool-cases (can_transition job.status target)) [
  | inl h ↦ simp (h, f) refl
  | inr h ↦ simp h refl
]

pub marked_succeeded-view :
    (result usage : Fields) (job : BatchJobRecord)
    → view_succeeded result (view job) ≡ Option.map view (marked_succeeded result usage job)
unfolding view_succeeded marked_succeeded
marked_succeeded-view result usage job = elim (Bool-cases (is_cancelled job.status)) [
  | inl h ↦ simp h refl
  | inr h ↦ simp h refl
]

pub marked_failed-view :
    (code message : String) (job : BatchJobRecord)
    → view_failed code message (view job) ≡ Option.map view (marked_failed code message job)
unfolding view_failed marked_failed
marked_failed-view code message job = elim (Bool-cases (is_cancelled job.status)) [
  | inl h ↦ simp h refl
  | inr h ↦ simp h refl
]

module _ {J : Type 0} {store : BatchJobStore J} (laws : StoreLaws store) where
  abbrev pub jobs_of : J → Jobs
  jobs_of s id = Option.map view (laws.find s id)

  SameJobs-same : (s t : J) → SameJobs laws.find s t → jobs_of t ≡ jobs_of s
  SameJobs-same s t h = fun_ext (λ j. ap (Option.map view) (h j))

  Stored-put_at :
      (id : String) (o : Option BatchJobRecord) (s t : J)
      → Stored laws.find id o s t
      → jobs_of t ≡ put_at id (Option.map view o) (jobs_of s)
  Stored-put_at id o s t (h, k) = fun_ext (λ j. go j (Bool-cases (str_eq j id)))
    where
      go :
          (j : String)
          → (str_eq j id ≡ true) ⊎ (str_eq j id ≡ false)
          → Option.map view (laws.find t j)
            ≡ (if str_eq j id then Option.map view o else Option.map view (laws.find s j))
      go j (inl e) =
          rw e
            (ap (λ i. Option.map view (laws.find t i)) ((eq_iff j id).0 e) ∙ ap (Option.map view) h)
      go j (inr e) = rw e (ap (Option.map view) (k j (λ p. cc (e, (eq_iff j id).1 p))))

  pub Writes-Changes :
      (id : String) (f : BatchJobRecord → Option BatchJobRecord) (g : JobView → Option JobView)
      (m : Action J (Option BatchJobRecord)) (s : J)
      → ((job : BatchJobRecord) → g (view job) ≡ Option.map view (f job))
      → Writes laws.find id f m s
      → Changes jobs_of id g m s
  Writes-Changes id f g m s commutes h =
      Ends-weaken (m s) h
        (λ r t k. (
          ap (Option.map view) k.0 ∙ sym (seen (laws.find s id)),
          Stored-put_at id _ s t k.1
              ∙ ap (λ o. put_at id (Option.map view (Store.or_old o (laws.find s id))) (jobs_of s))
                  k.0
              ∙ ap (λ o. put_at id o (jobs_of s)) (stored (laws.find s id)),
        ))
        (λ x t k. elim k [
          | inl e ↦ inl (
              Stored-put_at id _ s t e
              ∙ ap (λ o. put_at id o (jobs_of s)) (stored (laws.find s id)))
          | inr e ↦ inr (SameJobs-same s t e)
        ])
    where
      seen :
          (o : Option BatchJobRecord)
          → applied g (Option.map view o) ≡ Option.map view (written f o)
      seen none = refl
      seen (some job) = commutes job

      pick :
          (r o : Option BatchJobRecord)
          → Option.map view (Store.or_old r o) ≡ or_old (Option.map view r) (Option.map view o)
      pick none o = refl
      pick (some job) o = refl

      stored :
          (o : Option BatchJobRecord)
          → Option.map view (Store.or_old (written f o) o)
            ≡ or_old (applied g (Option.map view o)) (Option.map view o)
      stored o = pick (written f o) o ∙ ap (λ r. or_old r (Option.map view o)) (sym (seen o))

  pub created :
      (id : String) (auth_context : AuthContext) (payload : Fields) (model : String) (s : J)
      → jobs_of s id ≡ none
      → let new = view (new_job id auth_context payload model) in
        Ends
          (λ r t. (view r ≡ new) × (jobs_of t ≡ put_at id (some new) (jobs_of s)))
          (λ _ t. (jobs_of t ≡ put_at id (some new) (jobs_of s)) ⊎ (jobs_of t ≡ jobs_of s))
          (store.create id auth_context payload model s)
  created id auth_context payload model s h =
      Ends-weaken _ (laws.create_law id auth_context payload model s (missing (laws.find s id) h))
        (λ r t g. (ap view g.0, Stored-put_at id _ s t g.1))
        (λ x t g. elim g [
          | inl e ↦ inl (Stored-put_at id _ s t e)
          | inr e ↦ inr (SameJobs-same s t e)
        ])
    where
      missing : (o : Option BatchJobRecord) → Option.map view o ≡ none → o ≡ none
      missing none h = refl
      missing (some job) h = absurd (cc)

  pub got :
      (id : String) (s : J)
      → Ends
          (λ r t. (Option.map view r ≡ jobs_of s id) × (jobs_of t ≡ jobs_of s))
          (λ _ t. jobs_of t ≡ jobs_of s)
          (store.get id s)
  got id s =
      Ends-weaken _ (laws.get_law id s) (λ r t g. (ap (Option.map view) g.0, SameJobs-same s t g.1))
        (λ _ t g. SameJobs-same s t g)

  pub listed :
      (limit : ℕ) (s : J)
      → Ends
          (λ r t. AllQueued r × (jobs_of t ≡ jobs_of s))
          (λ _ t. jobs_of t ≡ jobs_of s)
          (store.list_recoverable limit s)
  listed limit s =
      Ends-weaken _ (laws.list_recoverable_law limit s) (λ r t g. (g.0, SameJobs-same s t g.1))
        (λ _ t g. SameJobs-same s t g)

  abbrev pub contract_of_laws : Contract store
  contract_of_laws = record {
    jobs = jobs_of;
    create_law = created;
    get_law = got;
    transition_law = λ id target s f.
        Writes-Changes id (transitioned target) (view_transitioned target)
          (store.transition id target) s (λ job. transitioned-view target job f)
          (laws.transition_law id target s);
    mark_succeeded_law = λ id result usage s.
        Writes-Changes id (marked_succeeded result usage) (view_succeeded result)
          (store.mark_succeeded id result usage) s (marked_succeeded-view result usage)
          (laws.mark_succeeded_law id result usage s);
    mark_failed_law = λ id code message s.
        Writes-Changes id (marked_failed code message) (view_failed code message)
          (store.mark_failed id code message) s (marked_failed-view code message)
          (laws.mark_failed_law id code message s);
    list_recoverable_law = listed;
  }
