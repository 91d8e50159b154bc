-- ===== src/Batch/Scanner.antt =====
-- `BatchRecoveryScanner` (backend/services/batch/recovery_scanner.py): queued jobs that do not wait
-- any more are put back.
use llm_inference_gpu_server.Common.{
  ℕ, ◌+◌, String, ◌≡◌, refl, sym, ◌∙◌, inl, inr, Bool, true, false, List, [], ◌∷◌, str_mem, str_eq,
  ◌||◌, if◌then◌else◌, Bool-cases, eq_iff, arith,
}
use llm_inference_gpu_server.Errors.{Action, pure, ◌>>=◌, ◌>>◌}
use llm_inference_gpu_server.Errors.Ends.{Ends, Ends-pure, Ends-then, Ends-bind, Ends-weaken}
use llm_inference_gpu_server.Errors.Parts.{on_first, on_second}
use llm_inference_gpu_server.Batch.Job.{BatchJobRecord}
use llm_inference_gpu_server.Batch.Store.{BatchJobStore, StoreLaws, SameJobs, AllQueued}
use llm_inference_gpu_server.Batch.Queue.{BatchQueue, QueueLaws, Added}

-- The loop of `reenqueue_missing`, with the number of jobs put back so far.
unfoldable pub reenqueue : {Q : Type 0} → BatchQueue Q → List BatchJobRecord → ℕ → Action Q ℕ
reenqueue queue [] requeued = pure requeued
reenqueue queue (job ∷ jobs) requeued =
    let skip = reenqueue queue jobs requeued in
    let again = reenqueue queue jobs (requeued + 1) in
    queue.contains job.id >>= (λ waits. if waits then skip else queue.enqueue job.id >> again)

-- `reenqueue_missing`
unfoldable pub reenqueue_missing :
    {J Q : Type 0} → BatchJobStore J → BatchQueue Q → ℕ → Action (J × Q) ℕ
reenqueue_missing store queue limit = do
  jobs ← on_first (store.list_recoverable limit)
  on_second (reenqueue queue jobs 0)

abbrev pub job_ids : List BatchJobRecord → List String
job_ids [] = []
job_ids (job ∷ jobs) = job.id ∷ job_ids jobs

-- The number of the jobs that do not wait, a job that is listed twice counted once.
unfoldable pub missing : List BatchJobRecord → List String → ℕ
missing [] ids = 0
missing (job ∷ jobs) ids =
    let rest = missing jobs ids in
    let more = missing jobs (job.id ∷ ids) in if str_mem job.id ids then rest else more + 1

-- Only who waits matters, not in which order.
abbrev pub SameIds : List String → List String → Type 0
SameIds before after = (j : String) → str_mem j after ≡ str_mem j before

missing_same :
    (jobs : List BatchJobRecord) (xs ys : List String)
    → SameIds xs ys
    → missing jobs ys ≡ missing jobs xs
unfolding missing
missing_same [] xs ys h = refl
missing_same (job ∷ jobs) xs ys h =
    rw
      (
        h job.id,
        missing_same jobs xs ys h,
        missing_same jobs (job.id ∷ xs) (job.id ∷ ys) (λ j. rw (h j) refl),
      )
      refl

Added-SameIds :
    (id : String) (before after : List String) → Added id before after → SameIds (id ∷ before) after
Added-SameIds id before after h j = elim (Bool-cases (str_eq j id)) [
  | inl e ↦ rw (e, (eq_iff j id).0 e) h.0
  | inr e ↦ rw e (h.1 j (λ p. let t = (eq_iff j id).1 p in absurd (cc)))
]

-- Exactly the jobs that waited or are listed wait.
abbrev pub Scanned : List BatchJobRecord → List String → List String → Type 0
Scanned jobs before after =
    (j : String) → str_mem j after ≡ (str_mem j (job_ids jobs) || str_mem j before)

Scanned-skip :
    (job : BatchJobRecord) (jobs : List BatchJobRecord) (before after : List String)
    → str_mem job.id before ≡ true
    → Scanned jobs before after
    → Scanned (job ∷ jobs) before after
Scanned-skip job jobs before after w h j = ground (arith, eq_iff j job.id, h j, w)

Scanned-again :
    (job : BatchJobRecord) (jobs : List BatchJobRecord) (before between after : List String)
    → Added job.id before between
    → Scanned jobs between after
    → Scanned (job ∷ jobs) before after
Scanned-again job jobs before between after a h j = ground (arith, eq_iff j job.id, h j, a.0, a.1 j)

-- Whoever waited still waits.
abbrev pub Kept : List String → List String → Type 0
Kept before after = (j : String) → str_mem j before ≡ true → str_mem j after ≡ true

Scanned-Kept :
    (jobs : List BatchJobRecord) (before after : List String)
    → Scanned jobs before after
    → Kept before after
Scanned-Kept jobs before after h j k = ground (arith, h j, k)

Added-Kept : (id : String) (before after : List String) → Added id before after → Kept before after
Added-Kept id before after h j k = ground (arith, eq_iff j id, h.0, h.1 j, k)

module _ {Q : Type 0} {queue : BatchQueue Q} (laws : QueueLaws queue) where
  abbrev pub Requeued : List BatchJobRecord → ℕ → List String → ℕ → Q → Type 0
  Requeued jobs n before r q = (r ≡ n + missing jobs before) × Scanned jobs before (laws.waiting q)

  abbrev Result : List BatchJobRecord → Type 0
  Result jobs =
      (n : ℕ) (q : Q)
      → Ends (Requeued jobs n (laws.waiting q)) (λ _ r. Kept (laws.waiting q) (laws.waiting r))
          (reenqueue queue jobs n q)

  step-Ends :
      (job : BatchJobRecord) (jobs : List BatchJobRecord)
      → Result jobs
      → (n : ℕ) (q : Q) (b : Bool) (r : Q) → b ≡ str_mem job.id (laws.waiting q)
      → laws.waiting r ≡ laws.waiting q
      → Ends
          (Requeued (job ∷ jobs) n (laws.waiting q))
          (λ _ r. Kept (laws.waiting q) (laws.waiting r))
          ((if b
              then reenqueue queue jobs n
              else queue.enqueue job.id >> reenqueue queue jobs (n + 1))
            r)
  unfolding missing
  step-Ends job jobs ih n q true r w same =
      Ends-weaken (reenqueue queue jobs n r) (ih n r)
        (λ x u h. (
          h.0 ∙ rw (sym w, same) refl,
          Scanned-skip job jobs (laws.waiting q) (laws.waiting u) (sym w) (rw⁻¹ same h.1),
        ))
        (λ _ u h j k. h j (rw same k))
  step-Ends job jobs ih n q false r w same =
      Ends-then (queue.enqueue job.id) (reenqueue queue jobs (n + 1)) r (laws.enqueue_law job.id r)
        (λ _ u a.
          let added : Added job.id (laws.waiting q) (laws.waiting u) = rw⁻¹ same a in
          Ends-weaken (reenqueue queue jobs (n + 1) u) (ih (n + 1) u)
            (λ x v h. (
              h.0
                  ∙ rw
                      (
                        sym w,
                        missing_same jobs (job.id ∷ laws.waiting q) (laws.waiting u)
                            (Added-SameIds job.id (laws.waiting q) (laws.waiting u) added),
                      )
                      (omega arith),
              Scanned-again job jobs (laws.waiting q) (laws.waiting u) (laws.waiting v) added h.1,
            ))
            (λ _ v h j k. h j (Added-Kept job.id (laws.waiting q) (laws.waiting u) added j k)))
        (λ _ u h j k. elim h [
          | inl a ↦ Added-Kept job.id (laws.waiting q) (laws.waiting u) (rw⁻¹ same a) j k
          | inr e ↦ rw (e, same) k
        ])

  pub reenqueue-Requeued : (jobs : List BatchJobRecord) → Result jobs
  unfolding reenqueue missing
  reenqueue-Requeued [] n q = Ends-pure n _ _ q (omega arith, λ j. refl)
  reenqueue-Requeued (job ∷ jobs) n q =
      Ends-bind (queue.contains job.id) _ q (laws.contains_law job.id q)
        (λ b r h. step-Ends job jobs (reenqueue-Requeued jobs) n q b r h.0 h.1)
        (λ _ r h j k. rw h k)

module _ {J Q : Type 0} {store : BatchJobStore J} {queue : BatchQueue Q} where
  module _ (laws : StoreLaws store) (queue_laws : QueueLaws queue) where
    -- Some jobs were listed; each was queued, and those that did not wait wait now.
    abbrev pub Recovered : J → Q → ℕ → J × Q → Type 0
    Recovered s q n v =
        (jobs : List BatchJobRecord) × AllQueued jobs
        × (n ≡ missing jobs (queue_laws.waiting q))
        × Scanned jobs (queue_laws.waiting q) (queue_laws.waiting v.1)
        × SameJobs laws.find s v.0
