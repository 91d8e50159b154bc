-- ===== src/Batch/Tests.antt =====
-- Runs of the batch service on the stores of the tests (backend/services/batch).
use llm_inference_gpu_server.Common.{⊤, ◌≡◌, refl, false, none, some, map, [], ◌∷◌}
use llm_inference_gpu_server.Errors.{◌>>◌}
use llm_inference_gpu_server.Redis.Memory.{Memory, empty_memory, memory_list_laws}
use llm_inference_gpu_server.Batch.Queue.RedisQueue.{
  batch_queue_key, enqueue_all, dequeue_all, enqueue_all-dequeue_all,
}
use llm_inference_gpu_server.Errors.Ends.{Ends}
use llm_inference_gpu_server.Json.{end, bool, set_field}
use llm_inference_gpu_server.Auth.{AuthContext}
use llm_inference_gpu_server.Batch.Status.{Status}
use llm_inference_gpu_server.Batch.Job.{BatchJobRecord, new_job}
use llm_inference_gpu_server.Batch.Store.Memory.{Jobs}
use llm_inference_gpu_server.Batch.Queue.Memory.{InMemoryBatchQueue}

abbrev caller : AuthContext
caller = record {
  api_key_id = "key_1";
  user_id = "user_1";
  project_id = "project_1";
  allowed_models = none;
}

abbrev no_jobs : Jobs
no_jobs = []

abbrev empty_queue : InMemoryBatchQueue
empty_queue = record { job_ids = []; fail_enqueue = false }

abbrev one_job : Jobs
one_job = ("job_1", new_job "job_1" caller end "qwen") ∷ []

abbrev sent : BatchJobRecord
sent = new_job "job_1" caller (set_field end "stream" (bool false)) "qwen"

enqueue_all-dequeue_all_example :
    Ends
      (λ taken (t : Memory). (taken ≡ map some ("a" ∷ "b" ∷ [])) × (t.lists batch_queue_key ≡ []))
      (λ _ _. ⊤)
      ((enqueue_all batch_queue_key memory_list_laws ("a" ∷ "b" ∷ [])
          >> dequeue_all batch_queue_key memory_list_laws 2)
        empty_memory)
enqueue_all-dequeue_all_example =
    enqueue_all-dequeue_all batch_queue_key memory_list_laws ("a" ∷ "b" ∷ []) [] empty_memory refl
