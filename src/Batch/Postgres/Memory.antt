-- ===== src/Batch/Postgres/Memory.antt =====
-- A table in memory that always answers: what the laws of the database ask for can be had. A row that
-- is written hides those of its identifier before it.
use llm_inference_gpu_server.Common.{
  ⊤, String, ◌≡◌, refl, sym, ap, ◌∙◌, Option, none, some, List, [], ◌∷◌, ◌⊎◌, inl, inr,
  if◌then◌else◌, str_eq, eq_iff, Bool-cases, some_of,
}
use llm_inference_gpu_server.Errors.{Result, ok, raise}
use llm_inference_gpu_server.Errors.Ends.{Ends}
use llm_inference_gpu_server.Batch.Postgres.Row.{BatchJob}
use llm_inference_gpu_server.Batch.Postgres.Repository.{Database}
use llm_inference_gpu_server.Batch.Postgres.Laws.{DatabaseLaws}

abbrev pub Table : Type 0
Table = List BatchJob

abbrev pub row_at : Table → String → Option BatchJob
row_at [] id = none
row_at (row ∷ table) id = let rest = row_at table id in if str_eq id row.id then some row else rest

abbrev pub undo : {A : Type 0} → Table → Result A × Table → Result A × Table
undo before (ok a, t) = (ok a, t)
undo before (raise e, t) = (raise e, before)

abbrev pub memory_database : Database Table
memory_database = record {
  find = λ id t. (ok (row_at t id), t);
  insert = λ row t. (ok row, row ∷ t);
  update = λ row t. (ok row, row ∷ t);
  select_by_status = λ status limit t. (ok [], t);
  begin = λ m t. undo t (m t);
  utc_now = λ t. (ok 0, t);
  isoformat = λ n. "1970-01-01T00:00:00+00:00";
}

pub row_at-key : (t : Table) (id : String) (row : BatchJob) → row_at t id ≡ some row → row.id ≡ id
row_at-key [] id row h = absurd (cc)
row_at-key (first ∷ t) id row h = elim (Bool-cases (str_eq id first.id)) [
  | inl e ↦ sym (ap (λ (r : BatchJob). r.id) (some_of (rw e at h))) ∙ sym ((eq_iff id first.id).0 e)
  | inr e ↦ row_at-key t id row (rw e at h)
]

pub undo-Ends :
    {A : Type 0} (P : A → (String → Option BatchJob) → Type 0) (s : Table) (x : Result A × Table)
    → Ends (λ a t. P a (row_at t)) (λ _ _. ⊤) x
    → Ends
        (λ a t. P a (row_at t))
        (λ _ t. (row_at t ≡ row_at s) ⊎ ((a : A) × P a (row_at t)))
        (undo s x)
undo-Ends P s (ok a, t) h = record { holds = h.holds }
undo-Ends P s (raise e, t) h = record { holds = inl refl }

abbrev pub memory_database_laws : DatabaseLaws memory_database
memory_database_laws = record {
  rows = row_at;
  key_law = row_at-key;
  find_law = λ id s. record { holds = (refl, refl) };
  insert_law = λ row s h. record { holds = (refl, refl) };
  update_law = λ row old s h. record { holds = (refl, refl) };
  select_law = λ status limit s. record { holds = (tt, refl) };
  begin_law = λ m P s h. undo-Ends P s (m s) h;
  clock_law = λ s. record { holds = refl };
}
