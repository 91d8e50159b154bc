-- ===== src/Batch/Postgres/Tests.antt =====
-- A job that is submitted, run and ended on the table in memory
-- (backend/services/batch/batch_service.py).
use llm_inference_gpu_server.Common.{⊤, ◌≡◌, refl, Option, none, some, List, [], ◌∷◌}
use llm_inference_gpu_server.Errors.Ends.{Ends}
use llm_inference_gpu_server.Json.{end}
use llm_inference_gpu_server.Auth.{AuthContext}
use llm_inference_gpu_server.Batch.Status.{running, cancelled}
use llm_inference_gpu_server.Batch.Contract.{JobView, view}
use llm_inference_gpu_server.Batch.Contract.Replay.{
  Op, create, get, transition, mark_succeeded, perform_all, answers_of, replay,
}
use llm_inference_gpu_server.Batch.Contract.Records
use llm_inference_gpu_server.Batch.Job.{BatchJobRecord, new_job}
use llm_inference_gpu_server.Batch.Postgres.Row.{BatchJob, new_row}
use llm_inference_gpu_server.Batch.Postgres.Repository
use llm_inference_gpu_server.Batch.Postgres.Store
use llm_inference_gpu_server.Common.Dict
use llm_inference_gpu_server.Batch.Store.Memory
use llm_inference_gpu_server.Batch.Postgres.Memory.{Table, memory_database, memory_database_laws}
use llm_inference_gpu_server.Batch.Postgres.Store.{postgres_store}
use llm_inference_gpu_server.Batch.Postgres.Refines.{postgres_store-Refines}
use llm_inference_gpu_server.Batch.Postgres.Changes.{jobs_of}

abbrev context : AuthContext
context = record { api_key_id = "k"; user_id = "u"; project_id = "p"; allowed_models = none }

abbrev ops : List Op
ops =
    create "j" context end "m"
    ∷ transition "j" running
    ∷ mark_succeeded "j" end end
    ∷ transition "j" cancelled
    ∷ get "j"
    ∷ []

abbrev empty_table : Table
empty_table = []

postgres_store-Refines_example :
    Ends
      (λ answers t.
        (answers ≡ answers_of ops (jobs_of memory_database_laws empty_table))
        × (jobs_of memory_database_laws t ≡ replay ops (jobs_of memory_database_laws empty_table)))
      (λ _ _. ⊤)
      (perform_all (postgres_store memory_database) ops empty_table)
postgres_store-Refines_example =
    postgres_store-Refines memory_database_laws ops empty_table
      (refl, (refl, (tt, (refl, (tt, tt)))))

abbrev start : List Op
start = create "j" context end "m" ∷ transition "j" running ∷ []

abbrev postgres_answers : List (Option JobView)
postgres_answers = answers_of start (λ _. none)

abbrev first_row : BatchJob
first_row = new_row "j" 0 context end "m"

abbrev second_row : BatchJob
second_row = record first_row { status = running; updated_at = 0 }

abbrev dict : Memory.Jobs
dict = []

abbrev first_record : BatchJobRecord
first_record = new_job "j" context end "m"

abbrev second_record : BatchJobRecord
second_record = record first_record { status = running }

abbrev memory_answers : List (Option JobView)
memory_answers = some (view first_record) ∷ some (view second_record) ∷ []
