-- ===== src/Batch/Postgres/Refines.antt =====
-- `PostgresBatchJobStore` keeps the contract of a store (backend/services/batch/batch_service.py,
-- backend/repositories/batch_job_repository.py).
use mathlib.Core.Option
use llm_inference_gpu_server.Common.{
  ⊤, ℕ, String, ◌≡◌, refl, sym, ap, ◌∙◌, Bool, true, false, not, Option, none, some, List, [], ◌∷◌,
  map, ◌⊎◌, inl, inr, if◌then◌else◌,
}
use llm_inference_gpu_server.Errors.Ends.{Ends, Ends-pure, Ends-bind, Ends-weaken}
use llm_inference_gpu_server.Json.{Fields, get_field}
use llm_inference_gpu_server.Auth.{AuthContext}
use llm_inference_gpu_server.Batch.Status.{Status, queued, is_cancelled, can_transition}
use llm_inference_gpu_server.Batch.Job.{BatchJobRecord, new_job}
use llm_inference_gpu_server.Batch.Store.{AllQueued}
use llm_inference_gpu_server.Batch.Contract.{
  JobView, view, is_failed, view_transitioned, view_succeeded, view_failed, put_at, Changes,
  Contract,
}
use llm_inference_gpu_server.Batch.Postgres.Row.{BatchJob, record_from_model, new_row}
use llm_inference_gpu_server.Batch.Postgres.Repository.{Database}
use llm_inference_gpu_server.Batch.Postgres.Repository
use llm_inference_gpu_server.Batch.Postgres.Store.{on_row, change_row, postgres_store}
use llm_inference_gpu_server.Batch.Postgres.Store
use llm_inference_gpu_server.Batch.Postgres.Laws.{DatabaseLaws, AllStatus}
use llm_inference_gpu_server.Batch.Postgres.Seen.{row_view, seen, seen-put_at}
use llm_inference_gpu_server.Batch.Contract.Replay.{
  Op, AllAllowed, perform_all, answers_of, replay, perform_all-Refines,
}
use llm_inference_gpu_server.Batch.Postgres.Writes.{
  clock-Ends, update_status-Writes, mark_succeeded-Writes, mark_failed-Writes,
}
use llm_inference_gpu_server.Batch.Postgres.Changes.{jobs_of, change_row-Changes}

module _ {D : Type 0} {db : Database D} (laws : DatabaseLaws db) where
  pub transition-Changes :
      (id : String) (target : Status) (s : D)
      → is_failed target ≡ false
      → Changes (jobs_of laws) id (view_transitioned target) (Store.transition db id target) s
  unfolding Store.transition view_transitioned record_from_model
  transition-Changes id target s f =
      change_row-Changes laws id (view_transitioned target) _ (Repository.update_status db target) s
        (λ row h. refused _ (can_transition row.status target) h)
        (λ row h. update_status-Writes laws target row f h)
    where
      refused :
          {A : Type 0} → (a : A) (b : Bool) → not b ≡ true → (if b then some a else none) ≡ none
      refused a true h = absurd (cc)
      refused a false h = refl

  cancelled_refused :
      {A : Type 0} (a : A) (b : Bool) → b ≡ true → (if b then none else some a) ≡ none
  cancelled_refused a true h = refl
  cancelled_refused a false h = absurd (cc)

  pub mark_succeeded-Changes :
      (id : String) (result usage : Fields) (s : D)
      → Changes
          (jobs_of laws)
          id
          (view_succeeded result)
          (Store.mark_succeeded db id result usage)
          s
  unfolding Store.mark_succeeded view_succeeded record_from_model
  mark_succeeded-Changes id result usage s =
      change_row-Changes laws id (view_succeeded result) _
        (Repository.mark_succeeded db result usage) s
        (λ row h. cancelled_refused _ (is_cancelled row.status) h)
        (λ row h. mark_succeeded-Writes laws result usage row h)

  pub mark_failed-Changes :
      (id code message : String) (s : D)
      → Changes
          (jobs_of laws)
          id
          (view_failed code message)
          (Store.mark_failed db id code message)
          s
  unfolding Store.mark_failed view_failed record_from_model
  mark_failed-Changes id code message s =
      change_row-Changes laws id (view_failed code message) _
        (Repository.mark_failed db code message) s
        (λ row h. cancelled_refused _ (is_cancelled row.status) h)
        (λ row h. mark_failed-Writes laws code message row h)

  pub find-Ends :
      (id : String) (s : D)
      → Ends
          (λ r t. (Option.map view r ≡ jobs_of laws s id) × (jobs_of laws t ≡ jobs_of laws s))
          (λ _ t. jobs_of laws t ≡ jobs_of laws s)
          (Store.get db id s)
  unfolding Store.get
  find-Ends id s =
      Ends-weaken _
        (laws.begin_law _
          (λ r rows. (Option.map view r ≡ jobs_of laws s id) × (seen rows ≡ jobs_of laws s)) s
          (Ends-bind (db.find id) _ s (laws.find_law id s)
            (λ o t g. Ends-pure _ _ _ t (map_map o ∙ ap (Option.map row_view) g.0, ap seen g.1))
            (λ _ _ _. tt)))
        (λ r t g. g) (λ x t g. elim g [ inl e ↦ ap seen e | inr (r, q) ↦ q.1 ])
    where
      map_map :
          (o : Option BatchJob)
          → Option.map view (Option.map record_from_model o) ≡ Option.map row_view o
      map_map none = refl
      map_map (some row) = refl

  new_row-view :
      (id : String) (now : ℕ) (auth_context : AuthContext) (payload : Fields) (model : String)
      → row_view (new_row id now auth_context payload model)
        ≡ view (new_job id auth_context payload model)
  unfolding record_from_model new_row new_job get_field
  new_row-view id now auth_context payload model = refl

  missing : (o : Option BatchJob) → Option.map row_view o ≡ none → o ≡ none
  missing none h = refl
  missing (some row) h = absurd (cc)

  abbrev pub Created :
      String
      → JobView
      → (String → Option BatchJob)
      → BatchJobRecord
      → (String → Option BatchJob)
      → Type 0
  Created id new before r after = (view r ≡ new) × (seen after ≡ put_at id (some new) (seen before))

  pub create-Ends :
      (id : String) (auth_context : AuthContext) (payload : Fields) (model : String) (s : D)
      → jobs_of laws s id ≡ none
      → let new = view (new_job id auth_context payload model) in
        Ends
          (λ r t. (view r ≡ new) × (jobs_of laws t ≡ put_at id (some new) (jobs_of laws s)))
          (λ _ t.
            (jobs_of laws t ≡ put_at id (some new) (jobs_of laws s))
            ⊎ (jobs_of laws t ≡ jobs_of laws s))
          (Store.create db id auth_context payload model s)
  unfolding Store.create Repository.create new_row
  create-Ends id auth_context payload model s h =
      let new = view (new_job id auth_context payload model) in
      let rows = laws.rows s in
      Ends-weaken _
        (laws.begin_law _ (Created id new rows) s (
          Ends-bind _ _ s
            (clock-Ends laws _ (λ r t. (row_view r ≡ new) × (laws.rows t ≡ put_at id (some r) rows))
              rows s refl
              (λ now t e.
                let row = new_row id now auth_context payload model in
                Ends-weaken _ (laws.insert_law row t (ap (λ rs. rs id) e ∙ missing (rows id) h))
                  (λ r u g. (
                    ap row_view g.0 ∙ new_row-view id now auth_context payload model,
                    g.1 ∙ ap (put_at id (some row)) e ∙ ap (λ x. put_at id (some x) rows) (sym g.0),
                  ))
                  (λ _ _ _. tt)))
            (λ r t g. Ends-pure _ _ _ t (
              g.0,
              ap seen g.1 ∙ seen-put_at id r rows ∙ ap (λ x. put_at id (some x) (seen rows)) g.0,
            ))
            (λ _ _ _. tt)))
        (λ r t g. g) (λ x t g. elim g [ inl e ↦ inr (ap seen e) | inr (r, q) ↦ inl q.1 ])

  records-AllQueued :
      (rows : List BatchJob) → AllStatus queued rows → AllQueued (map record_from_model rows)
  unfolding record_from_model
  records-AllQueued [] h = tt
  records-AllQueued (row ∷ rows) (q, h) = (q, records-AllQueued rows h)

  pub list-Ends :
      (limit : ℕ) (s : D)
      → Ends
          (λ r t. AllQueued r × (jobs_of laws t ≡ jobs_of laws s))
          (λ _ t. jobs_of laws t ≡ jobs_of laws s)
          (Store.list_recoverable db limit s)
  unfolding Store.list_recoverable
  list-Ends limit s =
      Ends-weaken _
        (laws.begin_law _ (λ r rows. AllQueued r × (seen rows ≡ jobs_of laws s)) s
          (Ends-bind _ _ s (laws.select_law queued limit s)
            (λ found t g. Ends-pure _ _ _ t (records-AllQueued found g.0, ap seen g.1))
            (λ _ _ _. tt)))
        (λ r t g. g) (λ x t g. elim g [ inl e ↦ ap seen e | inr (r, q) ↦ q.1 ])

  -- The contract of a store.
  abbrev pub postgres_contract : Contract (postgres_store db)
  postgres_contract = record {
    jobs = jobs_of laws;
    create_law = create-Ends;
    get_law = find-Ends;
    transition_law = transition-Changes;
    mark_succeeded_law = mark_succeeded-Changes;
    mark_failed_law = mark_failed-Changes;
    list_recoverable_law = list-Ends;
  }

  -- Any sequence of operations on the store that returns has answered as the contract of a store says,
  -- operation by operation, and leaves the jobs that it says: the rows are a faithful keeping of the
  -- jobs. Each identifier is created once, and no job is moved to `failed` without an error.
  pub postgres_store-Refines :
      (ops : List Op) (s : D)
      → AllAllowed ops (jobs_of laws s)
      → Ends
          (λ answers t.
            (answers ≡ answers_of ops (jobs_of laws s))
            × (jobs_of laws t ≡ replay ops (jobs_of laws s)))
          (λ _ _. ⊤)
          (perform_all (postgres_store db) ops s)
  postgres_store-Refines ops s h =
      perform_all-Refines postgres_contract ops s (jobs_of laws s) refl h
