-- ===== src/Batch/Queue.antt =====
-- The queue of waiting jobs (backend/services/batch/batch_queue.py): the protocol `BatchQueue` with
-- its contract, and the queue of the tests and the one on Redis, which keep it.
pub mod Memory
pub mod RedisQueue
use llm_inference_gpu_server.Common.{
  ⊤, String, ◌≡◌, ◌≢◌, refl, sym, ◌⊎◌, inl, inr, Bool, true, false, Option, none, some, List, [],
  ◌∷◌, ◌++◌, if◌then◌else◌, arith, str_eq, str_mem, eq_iff, str_mem-append_self, str_mem-append_ne,
}
use llm_inference_gpu_server.Errors.{Action, Exc, ok, raise, other}
use llm_inference_gpu_server.Errors.Ends.{Ends}

-- `BatchQueue`
pub record BatchQueue (Q : Type 0) : Type 0 where
  pub enqueue : String → Action Q ⊤
  pub dequeue : Action Q (Option String)
  pub contains : String → Action Q Bool

-- What `dequeue` answers, and what is left to wait.
abbrev pub Taken : List String → Option String → List String → Type 0
Taken before none after = (before ≡ []) × (after ≡ [])
Taken before (some job_id) after = before ≡ job_id ∷ after

-- `job_id` waits now, and of the others the same as before.
abbrev pub Added : String → List String → List String → Type 0
Added job_id before after =
    (str_mem job_id after ≡ true) × ((j : String) → j ≢ job_id → str_mem j after ≡ str_mem j before)

-- An operation that raises has been carried out or not.
abbrev pub MaybeAdded : String → List String → List String → Type 0
MaybeAdded job_id before after = Added job_id before after ⊎ (after ≡ before)

abbrev pub MaybeTaken : List String → List String → Type 0
MaybeTaken before after = ((o : Option String) × Taken before o after) ⊎ (after ≡ before)

pub record QueueLaws {Q : Type 0} (queue : BatchQueue Q) : Type 0 where
  pub waiting : Q → List String
  pub enqueue_law :
      (job_id : String) (q : Q)
      → Ends
          (λ _ r. Added job_id (waiting q) (waiting r))
          (λ _ r. MaybeAdded job_id (waiting q) (waiting r))
          (queue.enqueue job_id q)
  pub dequeue_law :
      (q : Q)
      → Ends
          (λ o r. Taken (waiting q) o (waiting r))
          (λ _ r. MaybeTaken (waiting q) (waiting r))
          (queue.dequeue q)
  pub contains_law :
      (job_id : String) (q : Q)
      → Ends
          (λ b r. (b ≡ str_mem job_id (waiting q)) × (waiting r ≡ waiting q))
          (λ _ r. waiting r ≡ waiting q)
          (queue.contains job_id q)

pub append-Added : (job_id : String) (ids : List String) → Added job_id ids (ids ++ job_id ∷ [])
append-Added job_id ids = (str_mem-append_self job_id ids, λ j h. str_mem-append_ne j job_id ids h)

pub present-Added :
    (job_id : String) (ids : List String) → str_mem job_id ids ≡ true → Added job_id ids ids
present-Added job_id ids h = (h, λ j n. refl)
