-- ===== src/Batch/Queue/RedisQueue.antt =====
-- `RedisBatchQueue` (backend/services/batch/batch_queue.py): a list of Redis.
use llm_inference_gpu_server.Common.{
  ⊤, ℕ, zero, suc, String, ◌≡◌, refl, sym, ap, ◌∙◌, Bool, Option, none, some, List, [], ◌∷◌, ◌++◌,
  inl, inr, length, map, str_mem,
}
use mathlib.Core.List.{append-nil, append_assoc}
use llm_inference_gpu_server.Common.Int.{pos, negsuc}
use llm_inference_gpu_server.Errors.{Action, pure, ◌>>=◌, ◌>>◌}
use llm_inference_gpu_server.Errors.Ends.{Ends, Ends-pure, Ends-bind, Ends-then, Ends-weaken}
use llm_inference_gpu_server.Redis.{RedisLike, RedisListLaws, Popped}
use llm_inference_gpu_server.Batch.Queue.{
  BatchQueue, QueueLaws, Taken, Added, MaybeAdded, MaybeTaken, append-Added,
}

-- `BATCH_QUEUE_KEY`
abbrev pub batch_queue_key : String
batch_queue_key = "batch_queue:pending"

-- `str(value) if value is not None else None`, on a client that decodes.
abbrev pub decoded : Option String → Option String
decoded none = none
decoded (some value) = some value

module _ {S : Type 0} (redis : RedisLike S) (queue_key : String) where
  unfoldable pub enqueue : String → Action S ⊤
  enqueue job_id = redis.rpush queue_key job_id

  unfoldable pub dequeue : Action S (Option String)
  dequeue = redis.lpop queue_key >>= λ value. pure (decoded value)

  unfoldable pub contains : String → Action S Bool
  contains job_id =
      redis.lrange queue_key (pos 0) (negsuc 0) >>= λ values. pure (str_mem job_id values)

  -- `RedisBatchQueue`
  abbrev pub redis_queue : BatchQueue S
  redis_queue = record { enqueue = enqueue; dequeue = dequeue; contains = contains }

module _ {S : Type 0} {redis : RedisLike S} (queue_key : String) (laws : RedisListLaws redis) where
  abbrev pub waiting : S → List String
  waiting s = laws.list s queue_key

  pub enqueue-Ends :
      (job_id : String) (s : S)
      → Ends
          (λ _ t. waiting t ≡ waiting s ++ job_id ∷ [])
          (λ _ t. MaybeAdded job_id (waiting s) (waiting t))
          (enqueue redis queue_key job_id s)
  unfolding enqueue
  enqueue-Ends job_id s =
      Ends-weaken _ (laws.rpush_law queue_key job_id s) (λ _ t h. h)
        (λ _ t h. elim h [ inl e ↦ inl (rw e (append-Added job_id (waiting s))) | inr e ↦ inr e ])

  pub dequeue-Ends :
      (s : S)
      → Ends
          (λ o t. Taken (waiting s) o (waiting t))
          (λ _ t. MaybeTaken (waiting s) (waiting t))
          (dequeue redis queue_key s)
  unfolding dequeue
  dequeue-Ends s =
      Ends-bind _ _ s (laws.lpop_law queue_key s) (λ o t h. Ends-pure _ _ _ t (taken o t h))
        (λ _ t h. elim h [ inl (o, p) ↦ inl (decoded o, taken o t p) | inr e ↦ inr e ])
    where
      taken :
          (o : Option String) (t : S)
          → Popped (waiting s) o (waiting t)
          → Taken (waiting s) (decoded o) (waiting t)
      taken none t h = h
      taken (some value) t h = h

  pub contains-Ends :
      (job_id : String) (s : S)
      → Ends
          (λ b t. (b ≡ str_mem job_id (waiting s)) × (waiting t ≡ waiting s))
          (λ _ t. waiting t ≡ waiting s)
          (contains redis queue_key job_id s)
  unfolding contains
  contains-Ends job_id s =
      Ends-bind _ _ s (laws.lrange_law queue_key s)
        (λ values t h. Ends-pure _ _ _ t (ap (str_mem job_id) h.0, h.1)) (λ _ t h. h)

  pub enqueue-Added :
      (job_id : String) (s : S)
      → Ends
          (λ _ t. Added job_id (waiting s) (waiting t))
          (λ _ t. MaybeAdded job_id (waiting s) (waiting t))
          (enqueue redis queue_key job_id s)
  enqueue-Added job_id s =
      Ends-weaken _ (enqueue-Ends job_id s) (λ _ t h. rw h (append-Added job_id (waiting s)))
        (λ _ _ h. h)

  -- The contract of a queue.
  abbrev pub redis_queue_laws : QueueLaws (redis_queue redis queue_key)
  redis_queue_laws = record {
    waiting = waiting;
    enqueue_law = enqueue-Added;
    dequeue_law = dequeue-Ends;
    contains_law = contains-Ends;
  }

  -- Several jobs put in, and several taken out.
  unfoldable pub enqueue_all : List String → Action S ⊤
  enqueue_all [] = pure tt
  enqueue_all (job_id ∷ ids) = enqueue redis queue_key job_id >> enqueue_all ids

  unfoldable pub dequeue_all : ℕ → Action S (List (Option String))
  dequeue_all zero = pure []
  dequeue_all (suc n) = dequeue redis queue_key >>= λ o. dequeue_all n >>= λ rest. pure (o ∷ rest)

  enqueue_all-waiting :
      (ids before : List String) (s : S)
      → waiting s ≡ before
      → Ends (λ _ t. waiting t ≡ before ++ ids) (λ _ _. ⊤) (enqueue_all ids s)
  unfolding enqueue_all
  enqueue_all-waiting [] before s e = Ends-pure tt _ _ s (e ∙ sym (append-nil before))
  enqueue_all-waiting (job_id ∷ ids) before s e =
      Ends-then _ _ s (enqueue-Ends job_id s)
        (λ _ t h.
          Ends-weaken _
            (enqueue_all-waiting ids (before ++ job_id ∷ []) t (h ∙ ap (λ xs. xs ++ job_id ∷ []) e))
            (λ _ u g. g ∙ append_assoc before (job_id ∷ []) ids) (λ _ _ _. tt))
        (λ _ _ _. tt)

  dequeue_all-taken :
      (ids : List String) (s : S)
      → waiting s ≡ ids
      → Ends
          (λ taken t. (taken ≡ map some ids) × (waiting t ≡ []))
          (λ _ _. ⊤)
          (dequeue_all (length ids) s)
  unfolding dequeue_all
  dequeue_all-taken [] s e = Ends-pure [] _ _ s (refl, e)
  dequeue_all-taken (job_id ∷ ids) s e =
      Ends-bind _ _ s (dequeue-Ends s)
        (λ o t h.
          let (p, q) = first_of o (waiting s) (waiting t) e h in
          Ends-bind _ _ t (dequeue_all-taken ids t q)
            (λ rest u g.
              Ends-pure _ _ _ u (ap (λ x. x ∷ rest) p ∙ ap (λ xs. some job_id ∷ xs) g.0, g.1))
            (λ _ _ _. tt))
        (λ _ _ _. tt)
    where
      first_of :
          (o : Option String) (before after : List String)
          → before ≡ job_id ∷ ids
          → Taken before o after
          → (o ≡ some job_id) × (after ≡ ids)
      first_of none before after e h = absurd (cc (e, h.0))
      first_of (some x) before after e h = (cc, cc)

  -- While Redis answers, jobs come out of the queue in the order in which they were put in, behind
  -- those that waited before, each once, and the queue is then empty.
  pub enqueue_all-dequeue_all :
      (ids before : List String) (s : S)
      → waiting s ≡ before
      → Ends
          (λ taken t. (taken ≡ map some (before ++ ids)) × (waiting t ≡ []))
          (λ _ _. ⊤)
          ((enqueue_all ids >> dequeue_all (length (before ++ ids))) s)
  enqueue_all-dequeue_all ids before s e =
      Ends-then _ _ s (enqueue_all-waiting ids before s e)
        (λ _ t h. dequeue_all-taken (before ++ ids) t h) (λ _ _ _. tt)
