-- ===== src/Batch/Service/Submit.antt =====
-- What `submit` leaves in the store and in the queue (backend/services/batch/batch_service.py).
use llm_inference_gpu_server.Common.{◌≡◌, ◌⊎◌, Bool, true, false, some}
use llm_inference_gpu_server.Errors.{Exc, app}
use llm_inference_gpu_server.Errors.Ends.{Ends}
use llm_inference_gpu_server.Batch.Job.{BatchJobRecord}
use llm_inference_gpu_server.Batch.Store.{BatchJobStore, StoreLaws, Stored, SameJobs}
use llm_inference_gpu_server.Batch.Queue.{BatchQueue, QueueLaws, Added}
use llm_inference_gpu_server.Batch.Service.{streaming_not_supported}

module _ {J Q : Type 0} {store : BatchJobStore J} {queue : BatchQueue Q} where
  module _ (laws : StoreLaws store) (queue_laws : QueueLaws queue) where
    -- The job is stored and queued; it waits, or the queue has failed and is as it was.
    abbrev pub Submitted : BatchJobRecord → J × Q → J × Q → Type 0
    Submitted job w v =
        Stored laws.find job.id (some job) w.0 v.0
        × (Added job.id (queue_laws.waiting w.1) (queue_laws.waiting v.1)
            ⊎ (queue_laws.waiting v.1 ≡ queue_laws.waiting w.1))

    abbrev pub NotSubmitted : Bool → BatchJobRecord → Exc → J × Q → J × Q → Type 0
    NotSubmitted true job e w v = (e ≡ app streaming_not_supported) × (v ≡ w)
    NotSubmitted false job e w v =
        (Stored laws.find job.id (some job) w.0 v.0 ⊎ SameJobs laws.find w.0 v.0) × (v.1 ≡ w.1)
