-- ===== src/Batch/Postgres/Writes.antt =====
-- What the writes of the repository do to the job that is seen
-- (backend/repositories/batch_job_repository.py).
use llm_inference_gpu_server.Common.{
  ⊤, ℕ, String, ◌≡◌, refl, sym, ap, ◌∙◌, false, not, Option, some,
}
use llm_inference_gpu_server.Errors.{Action, ◌>>=◌}
use llm_inference_gpu_server.Errors.Ends.{Ends, Ends-bind, Ends-weaken}
use llm_inference_gpu_server.Json.{Fields}
use llm_inference_gpu_server.Batch.Status.{Status, is_cancelled, can_transition}
use llm_inference_gpu_server.Batch.Contract.{
  JobView, is_failed, view_transitioned, view_succeeded, view_failed, put_at,
}
use llm_inference_gpu_server.Batch.Postgres.Row.{BatchJob, row_succeeded, row_failed}
use llm_inference_gpu_server.Batch.Postgres.Repository.{Database}
use llm_inference_gpu_server.Batch.Postgres.Repository
use llm_inference_gpu_server.Batch.Postgres.Laws.{DatabaseLaws}
use llm_inference_gpu_server.Batch.Postgres.Seen.{
  row_view, row_failed-view, row_succeeded-view, row_transitioned-view,
}

module _ {D : Type 0} {db : Database D} (laws : DatabaseLaws db) where
  -- `utc_now` first.
  pub clock-Ends :
      {A : Type 0} (k : ℕ → Action D A) (P : A → D → Type 0) (rows : String → Option BatchJob)
      (s : D)
      → laws.rows s ≡ rows
      → ((now : ℕ) (t : D) → laws.rows t ≡ rows → Ends P (λ _ _. ⊤) (k now t))
      → Ends P (λ _ _. ⊤) ((db.utc_now >>= k) s)
  clock-Ends k P rows s e h =
      Ends-bind db.utc_now k s (laws.clock_law s) (λ now t g. h now t (g ∙ e)) (λ _ _ _. tt)

  -- The row that is written, and the rows after it.
  abbrev pub Written : BatchJob → String → (String → Option BatchJob) → BatchJob → D → Type 0
  Written new id rows r t = (r ≡ new) × (laws.rows t ≡ put_at id (some new) rows)

  pub update-Ends :
      (new old : BatchJob) (id : String) (rows : String → Option BatchJob) (s : D)
      → laws.rows s ≡ rows
      → rows id ≡ some old
      → new.id ≡ id
      → Ends (Written new id rows) (λ _ _. ⊤) (db.update new s)
  update-Ends new old id rows s e h k =
      Ends-weaken (db.update new s)
        (laws.update_law new old s (ap (laws.rows s) k ∙ ap (λ rs. rs id) e ∙ h))
        (λ r t g.
          (g.0, g.1 ∙ ap (λ i. put_at i (some new) (laws.rows s)) k ∙ ap (put_at id (some new)) e))
        (λ _ _ _. tt)

  -- A write that does what `f` does to the job that is seen.
  abbrev pub Writes :
      (JobView → Option JobView) → (BatchJob → Action D BatchJob) → BatchJob → Type 0
  Writes f write row =
      (id : String) (rows : String → Option BatchJob) (s : D)
      → laws.rows s ≡ rows
      → rows id ≡ some row
      → Ends
          (λ r t. (f (row_view row) ≡ some (row_view r)) × (laws.rows t ≡ put_at id (some r) rows))
          (λ _ _. ⊤) (write row s)

  pub written-Writes :
      (f : JobView → Option JobView) (new : BatchJob) (id : String)
      (rows : String → Option BatchJob) (row : BatchJob) (s : D)
      → laws.rows s ≡ rows
      → rows id ≡ some row
      → new.id ≡ row.id
      → f (row_view row) ≡ some (row_view new)
      → Ends
          (λ r t. (f (row_view row) ≡ some (row_view r)) × (laws.rows t ≡ put_at id (some r) rows))
          (λ _ _. ⊤)
          (db.update new s)
  written-Writes f new id rows row s e h k v =
      Ends-weaken (db.update new s)
        (update-Ends new row id rows s e h (k ∙ laws.key_law s id row (ap (λ rs. rs id) e ∙ h)))
        (λ r t g. (
          v ∙ ap (λ x. some (row_view x)) (sym g.0),
          g.1 ∙ ap (λ x. put_at id (some x) rows) (sym g.0),
        ))
        (λ _ _ _. tt)

  pub update_status-Writes :
      (target : Status) (row : BatchJob)
      → is_failed target ≡ false
      → not (can_transition row.status target) ≡ false
      → Writes (view_transitioned target) (Repository.update_status db target) row
  unfolding Repository.update_status
  update_status-Writes target row f h id rows s e k = clock-Ends _ _ rows s e (λ now t g.
      written-Writes (view_transitioned target) _ id rows row t g k refl
        (row_transitioned-view target now row f h))

  pub mark_succeeded-Writes :
      (result usage : Fields) (row : BatchJob)
      → is_cancelled row.status ≡ false
      → Writes (view_succeeded result) (Repository.mark_succeeded db result usage) row
  unfolding Repository.mark_succeeded row_succeeded
  mark_succeeded-Writes result usage row h id rows s e k =
      clock-Ends _ _ rows s e (λ completed_at t g. clock-Ends _ _ rows t g (λ now u j.
        written-Writes (view_succeeded result) _ id rows row u j k refl
          (row_succeeded-view result usage (db.isoformat completed_at) now row h)))

  pub mark_failed-Writes :
      (code message : String) (row : BatchJob)
      → is_cancelled row.status ≡ false
      → Writes (view_failed code message) (Repository.mark_failed db code message) row
  unfolding Repository.mark_failed row_failed
  mark_failed-Writes code message row h id rows s e k = clock-Ends _ _ rows s e (λ completed_at t g.
      clock-Ends _ _ rows t g (λ now u j.
        written-Writes (view_failed code message) _ id rows row u j k refl
          (row_failed-view code message (db.isoformat completed_at) now row h)))
