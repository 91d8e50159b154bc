-- ===== src/Batch/Postgres/Seen.antt =====
-- The rows of the table as their owners see them
-- (backend/repositories/batch_job_repository.py).
use mathlib.Core.Option
use mathlib.Core.Path.{fun_ext}
use llm_inference_gpu_server.Common.{
  ℕ, String, ◌≡◌, refl, sym, ap, ◌∙◌, Bool, true, false, not, Option, none, some, ◌⊎◌, inl, inr,
  if◌then◌else◌, str_eq, eq_iff, Bool-cases,
}
use llm_inference_gpu_server.Json.{Fields, get_field-set_field}
use llm_inference_gpu_server.Batch.Status.{Status, is_cancelled, can_transition}
use llm_inference_gpu_server.Batch.Contract.{
  JobView, Jobs, view, is_failed, view_transitioned, view_succeeded, view_failed, applied, or_old,
  put_at, changed,
}
use llm_inference_gpu_server.Text.{take_str_twice}
use llm_inference_gpu_server.Batch.Postgres.Row.{
  BatchJob, record_from_model, row_succeeded, row_failed,
}

abbrev pub row_view : BatchJob → JobView
row_view row = view (record_from_model row)

abbrev pub seen : (String → Option BatchJob) → Jobs
seen rows id = Option.map row_view (rows id)

pub seen-put_at :
    (id : String) (row : BatchJob) (rows : String → Option BatchJob)
    → seen (put_at id (some row) rows) ≡ put_at id (some (row_view row)) (seen rows)
seen-put_at id row rows = fun_ext (λ j. go (str_eq j id) (rows j))
  where
    go :
        (b : Bool) (o : Option BatchJob)
        → Option.map row_view (if b then some row else o)
          ≡ (if b then some (row_view row) else Option.map row_view o)
    go true o = refl
    go false o = refl

pub put_at-same : (id : String) (jobs : Jobs) → put_at id (jobs id) jobs ≡ jobs
put_at-same id jobs = fun_ext (λ j. go j (Bool-cases (str_eq j id)))
  where
    go :
        (j : String)
        → (str_eq j id ≡ true) ⊎ (str_eq j id ≡ false)
        → (if str_eq j id then jobs id else jobs j) ≡ jobs j
    go j (inl e) = rw e (ap jobs (sym ((eq_iff j id).0 e)))
    go j (inr e) = rw e refl

pub changed-none :
    (id : String) (f : JobView → Option JobView) (jobs : Jobs)
    → applied f (jobs id) ≡ none
    → changed id f jobs ≡ jobs
changed-none id f jobs h = ap (λ o. put_at id (or_old o (jobs id)) jobs) h ∙ put_at-same id jobs

pub changed-some :
    (id : String) (f : JobView → Option JobView) (jobs : Jobs) (job : JobView)
    → applied f (jobs id) ≡ some job
    → changed id f jobs ≡ put_at id (some job) jobs
changed-some id f jobs job h = ap (λ o. put_at id (or_old o (jobs id)) jobs) h

-- The rows that the repository writes, as they are seen.
pub row_failed-view :
    (code message completed_at : String) (now : ℕ) (row : BatchJob)
    → is_cancelled row.status ≡ false
    → view_failed code message (row_view row)
      ≡ some (row_view (row_failed code message completed_at now row))
unfolding view_failed row_failed record_from_model
row_failed-view code message completed_at now row h =
    simp (h, get_field-set_field, take_str_twice) refl

pub row_succeeded-view :
    (result usage : Fields) (completed_at : String) (now : ℕ) (row : BatchJob)
    → is_cancelled row.status ≡ false
    → view_succeeded result (row_view row)
      ≡ some (row_view (row_succeeded result usage completed_at now row))
unfolding view_succeeded row_succeeded record_from_model
row_succeeded-view result usage completed_at now row h = simp (h, get_field-set_field) refl

pub row_transitioned-view :
    (target : Status) (now : ℕ) (row : BatchJob)
    → is_failed target ≡ false
    → not (can_transition row.status target) ≡ false
    → view_transitioned target (row_view row)
      ≡ some (row_view (record row { status = target; updated_at = now }))
unfolding view_transitioned record_from_model
row_transitioned-view target now row f h =
    simp (f, allowed (can_transition row.status target) h) refl
  where
    allowed : (b : Bool) → not b ≡ false → b ≡ true
    allowed true h = refl
    allowed false h = absurd (cc)
