-- ===== src/Batch/Queue/Memory.antt =====
-- `InMemoryBatchQueue` (backend/services/batch/batch_queue.py).
use llm_inference_gpu_server.Common.{
  ⊤, String, ◌≡◌, refl, ◌⊎◌, inl, inr, Bool, true, false, Option, none, some, List, [], ◌∷◌, ◌++◌,
  if◌then◌else◌, str_mem, Bool-cases,
}
use llm_inference_gpu_server.Errors.{Action, ok, raise, other}
use llm_inference_gpu_server.Errors.Ends.{Ends}
use llm_inference_gpu_server.Batch.Queue.{
  BatchQueue, QueueLaws, Taken, Added, MaybeAdded, MaybeTaken, append-Added, present-Added,
}

-- `InMemoryBatchQueue`: the jobs that wait, and whether `enqueue` fails.
pub record InMemoryBatchQueue : Type 0 where
  pub job_ids : List String
  pub fail_enqueue : Bool

unfoldable pub enqueue : String → Action InMemoryBatchQueue ⊤
enqueue job_id q =
    if q.fail_enqueue
    then (raise (other none "redis enqueue failed"), q)
    else if str_mem job_id q.job_ids
    then (ok tt, q)
    else (ok tt, record q { job_ids = q.job_ids ++ job_id ∷ [] })

unfoldable pub pop_first : List String → Option String × List String
pop_first [] = (none, [])
pop_first (x ∷ xs) = (some x, xs)

unfoldable pub dequeue : Action InMemoryBatchQueue (Option String)
unfolding pop_first
dequeue q = let (o, rest) = pop_first q.job_ids in (ok o, record q { job_ids = rest })

unfoldable pub contains : String → Action InMemoryBatchQueue Bool
contains job_id q = (ok (str_mem job_id q.job_ids), q)

abbrev pub in_memory_queue : BatchQueue InMemoryBatchQueue
in_memory_queue = record { enqueue = enqueue; dequeue = dequeue; contains = contains }

pub enqueue-Ends :
    (job_id : String) (q : InMemoryBatchQueue)
    → Ends
        (λ _ r. Added job_id q.job_ids r.job_ids)
        (λ _ r. MaybeAdded job_id q.job_ids r.job_ids)
        (enqueue job_id q)
unfolding enqueue
enqueue-Ends job_id q = go q.job_ids q.fail_enqueue (Bool-cases (str_mem job_id q.job_ids))
  where
    go :
        (ids : List String) (fails : Bool)
        → (str_mem job_id ids ≡ true) ⊎ (str_mem job_id ids ≡ false)
        → let r : InMemoryBatchQueue = record { job_ids = ids; fail_enqueue = fails } in
          Ends
            (λ _ r. Added job_id ids r.job_ids)
            (λ _ r. MaybeAdded job_id ids r.job_ids)
            (enqueue job_id r)
    go ids true h = record { holds = inr refl }
    go ids false (inl h) = rw h (record { holds = present-Added job_id ids h })
    go ids false (inr h) = rw h (record { holds = append-Added job_id ids })

pub dequeue-Ends :
    (q : InMemoryBatchQueue)
    → Ends (λ o r. Taken q.job_ids o r.job_ids) (λ _ r. MaybeTaken q.job_ids r.job_ids) (dequeue q)
unfolding dequeue pop_first
dequeue-Ends q = go q.job_ids q.fail_enqueue
  where
    go :
        (ids : List String) (fails : Bool)
        → let r : InMemoryBatchQueue = record { job_ids = ids; fail_enqueue = fails } in
          Ends (λ o q. Taken ids o q.job_ids) (λ _ q. MaybeTaken ids q.job_ids) (dequeue r)
    go [] fails = record { holds = (refl, refl) }
    go (x ∷ xs) fails = record { holds = refl }

pub contains-Ends :
    (job_id : String) (q : InMemoryBatchQueue)
    → Ends
        (λ b r. (b ≡ str_mem job_id q.job_ids) × (r.job_ids ≡ q.job_ids))
        (λ _ r. r.job_ids ≡ q.job_ids)
        (contains job_id q)
unfolding contains
contains-Ends job_id q = record { holds = (refl, refl) }

abbrev pub in_memory_queue_laws : QueueLaws in_memory_queue
in_memory_queue_laws = record {
  waiting = λ q. q.job_ids;
  enqueue_law = enqueue-Ends;
  dequeue_law = λ q. dequeue-Ends q;
  contains_law = contains-Ends;
}
