-- ===== src/Batch/Postgres/Laws.antt =====
-- What the database promises (its sessions are those of SQLAlchemy): the rows by their identifiers,
-- and a transaction that is carried out as a whole or not at all.
use llm_inference_gpu_server.Common.{⊤, ℕ, String, ◌≡◌, ◌⊎◌, Option, none, some, List, [], ◌∷◌}
use llm_inference_gpu_server.Errors.{Action}
use llm_inference_gpu_server.Errors.Ends.{Ends}
use llm_inference_gpu_server.Batch.Status.{Status}
use llm_inference_gpu_server.Batch.Contract.{put_at}
use llm_inference_gpu_server.Batch.Postgres.Row.{BatchJob}
use llm_inference_gpu_server.Batch.Postgres.Repository.{Database}

abbrev pub AllStatus : Status → List BatchJob → Type 0
AllStatus status [] = ⊤
AllStatus status (row ∷ rows) = (row.status ≡ status) × AllStatus status rows

pub record DatabaseLaws {D : Type 0} (db : Database D) : Type 1 where
  pub rows : D → String → Option BatchJob
  -- The identifier is the primary key.
  pub key_law : (s : D) (id : String) (row : BatchJob) → rows s id ≡ some row → row.id ≡ id
  pub find_law :
      (id : String) (s : D)
      → Ends (λ o t. (o ≡ rows s id) × (rows t ≡ rows s)) (λ _ _. ⊤) (db.find id s)
  pub insert_law :
      (row : BatchJob) (s : D)
      → rows s row.id ≡ none
      → Ends
          (λ r t. (r ≡ row) × (rows t ≡ put_at row.id (some row) (rows s)))
          (λ _ _. ⊤)
          (db.insert row s)
  pub update_law :
      (row old : BatchJob) (s : D)
      → rows s row.id ≡ some old
      → Ends
          (λ r t. (r ≡ row) × (rows t ≡ put_at row.id (some row) (rows s)))
          (λ _ _. ⊤)
          (db.update row s)
  pub select_law :
      (status : Status) (limit : ℕ) (s : D)
      → Ends
          (λ found t. AllStatus status found × (rows t ≡ rows s))
          (λ _ _. ⊤)
          (db.select_by_status status limit s)
  -- A transaction that returns is committed. One that raises is rolled back, unless the answer to its
  -- commit was lost.
  pub begin_law :
      {A : Type 0} (m : Action D A) (P : A → (String → Option BatchJob) → Type 0) (s : D)
      → Ends (λ a t. P a (rows t)) (λ _ _. ⊤) (m s)
      → Ends
          (λ a t. P a (rows t))
          (λ _ t. (rows t ≡ rows s) ⊎ ((a : A) × P a (rows t)))
          (db.begin m s)
  pub clock_law : (s : D) → Ends (λ _ t. rows t ≡ rows s) (λ _ _. ⊤) (db.utc_now s)
