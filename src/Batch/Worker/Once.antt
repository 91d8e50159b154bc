-- ===== src/Batch/Worker/Once.antt =====
-- A job that is not queued is not run (backend/services/batch/batch_worker.py).
use llm_inference_gpu_server.Common.{
  ⊤, String, ◌≡◌, ◌≢◌, refl, sym, ◌∙◌, ap, subst, Bool, true, false, Option, none, some,
  if◌then◌else◌, none_ne_some, str_eq, eq_iff, Bool-cases, inl, inr,
}
use llm_inference_gpu_server.Errors.{Action, pure, ◌>>=◌, ◌>>◌}
use llm_inference_gpu_server.Errors.Ends.{Ends, Ends-pure, Ends-then, Ends-bind, Ends-weaken}
use llm_inference_gpu_server.Errors.Parts.{on_first, on_second, Ends-on_first, Ends-on_second}
use llm_inference_gpu_server.Inference.Ports.{Ports, PortsLaws, Same, Quiet}
use llm_inference_gpu_server.Batch.Status.{
  Status, queued, running, succeeded, failed, cancelled, other_status, can_transition,
}
use llm_inference_gpu_server.Batch.Job.{BatchJobRecord, transitioned}
use llm_inference_gpu_server.Batch.Store.{
  BatchJobStore, StoreLaws, SameJobs, Stored, written, or_old,
}
use llm_inference_gpu_server.Batch.Queue.{BatchQueue, QueueLaws}
use llm_inference_gpu_server.Batch.Worker.{
  WorkerSettings, asked, is_runnable, run_started, start_job, process_job,
}

only_queued_starts : (s : Status) → s ≢ queued → can_transition s running ≡ false
unfolding can_transition
only_queued_starts queued h = absurd (h refl)
only_queued_starts running h = refl
only_queued_starts succeeded h = refl
only_queued_starts failed h = refl
only_queued_starts cancelled h = refl
only_queued_starts (other_status x) h = refl

-- There is no such job, or it is not queued.
abbrev pub NotQueued : Option BatchJobRecord → Type 0
NotQueued none = ⊤
NotQueued (some job) = job.status ≢ queued

not_started : (o : Option BatchJobRecord) → NotQueued o → written (transitioned running) o ≡ none
unfolding transitioned
not_started none h = refl
not_started (some job) h = rw (only_queued_starts job.status h) refl

module _ {J Q S L : Type 0} {store : BatchJobStore J} {queue : BatchQueue Q} {ports : Ports S L}
    (laws : StoreLaws store) (queue_laws : QueueLaws queue) (ports_laws : PortsLaws ports) where
  -- Every job is as it was, and no request was admitted.
  abbrev pub Idle : (J × Q) × S → (J × Q) × S → Type 0
  Idle w v = SameJobs laws.find w.0.0 v.0.0 × Same ports_laws.admits ports_laws.releases w.1 v.1

  Idle-refl : (w : (J × Q) × S) → Idle w w
  Idle-refl w = (λ j. refl, (refl, refl))

  Idle-trans : (w v u : (J × Q) × S) → Idle w v → Idle v u → Idle w u
  Idle-trans w v u h k = (λ j. k.0 j ∙ h.0 j, (k.1.0 ∙ h.1.0, k.1.1 ∙ h.1.1))

  -- A job that is written as it was.
  unchanged :
      (id : String) (o : Option BatchJobRecord) (s t : J)
      → o ≡ laws.find s id
      → Stored laws.find id o s t
      → SameJobs laws.find s t
  unchanged id o s t e h j = elim (Bool-cases (str_eq j id)) [
    | inl k ↦ rw ((eq_iff j id).0 k) (h.0 ∙ e)
    | inr k ↦ h.1 j (λ p. let b = (eq_iff j id).1 p in absurd (cc))
  ]

  left_alone :
      (id : String) (s t : J)
      → NotQueued (laws.find s id)
      → (r : Option BatchJobRecord) → r ≡ written (transitioned running) (laws.find s id)
      → Stored laws.find id (or_old r (laws.find s id)) s t
      → SameJobs laws.find s t
  left_alone id s t h r e k =
      unchanged id (or_old r (laws.find s id)) s t
        (ap (λ x. or_old x (laws.find s id)) (e ∙ not_started _ h)) k

  module _ (settings : WorkerSettings) (request_id : String) where
    start_job-Idle :
        (job_id : String) (w : (J × Q) × S)
        → NotQueued (laws.find w.0.0 job_id)
        → Ends {S = (J × Q) × S}
            (λ b v. (b ≡ false) × Idle w v)
            (λ _ v. Idle w v)
            (start_job store ports settings queue request_id job_id w)
    unfolding start_job run_started
    start_job-Idle job_id w h =
        Ends-bind (on_first (on_first (store.transition job_id running))) _ w
          (Ends-on_first (on_first (store.transition job_id running)) w.0 w.1 (
            Ends-on_first (store.transition job_id running) w.0.0 w.0.1
              (laws.transition_law job_id running w.0.0)))
          (λ r v g.
            after r v (g.0.0.0 ∙ not_started _ h)
              (left_alone job_id w.0.0 v.0.0 h r g.0.0.0 g.0.0.1, (rw g.1 refl, rw g.1 refl)))
          (λ _ v g. elim g.0.0 [
            | inl k ↦ (left_alone job_id w.0.0 v.0.0 h _ refl k, (rw g.1 refl, rw g.1 refl))
            | inr k ↦ (k, (rw g.1 refl, rw g.1 refl))
          ])
      where
        after :
            (r : Option BatchJobRecord) (v : (J × Q) × S)
            → r ≡ none
            → Idle w v
            → Ends {S = (J × Q) × S}
                (λ b v. (b ≡ false) × Idle w v)
                (λ _ v. Idle w v)
                (run_started store ports settings queue request_id job_id r v)
        after none v e i = Ends-pure false _ _ v (refl, i)
        after (some job) v e i = absurd (none_ne_some (sym e))

    module _ (should_run_job : Option (Action S Bool))
        (quiet : Quiet ports_laws.admits ports_laws.releases (asked should_run_job))
        (job_id : String) where
      after_asking :
          (runs : Bool) (w : (J × Q) × S)
          → NotQueued (laws.find w.0.0 job_id)
          → Ends {S = (J × Q) × S}
              (λ b v. (b ≡ false) × Idle w v)
              (λ _ v. Idle w v)
              ((if runs
                  then start_job store ports settings queue request_id job_id
                  else on_first (on_second (queue.enqueue job_id)) >> pure false)
                w)
      after_asking true w h = start_job-Idle job_id w h
      after_asking false w h =
          Ends-then (on_first (on_second (queue.enqueue job_id))) (pure false) w
            (Ends-on_first (on_second (queue.enqueue job_id)) w.0 w.1 (
              Ends-on_second (queue.enqueue job_id) w.0.0 w.0.1
                (queue_laws.enqueue_law job_id w.0.1)))
            (λ _ v g. Ends-pure false _ _ v (refl, still w v g.0.1 g.1))
            (λ _ v g. still w v g.0.1 g.1)
        where
          still : (w v : (J × Q) × S) → v.0.0 ≡ w.0.0 → v.1 ≡ w.1 → Idle w v
          still w v a b = (λ j. rw a refl, (rw b refl, rw b refl))

      go :
          (b : Bool) (w : (J × Q) × S)
          → NotQueued (laws.find w.0.0 job_id)
          → Ends {S = (J × Q) × S}
              (λ b v. (b ≡ false) × Idle w v)
              (λ _ v. Idle w v)
              ((if b
                  then on_second (asked should_run_job) >>= (λ runs.
                    if runs
                    then start_job store ports settings queue request_id job_id
                    else on_first (on_second (queue.enqueue job_id)) >> pure false)
                  else pure false)
                w)
      go false w h = Ends-pure false _ _ w (refl, Idle-refl w)
      go true w h =
          Ends-bind (on_second (asked should_run_job)) _ w
            (Ends-on_second (asked should_run_job) w.0 w.1 (quiet.ends w.1))
            (λ runs v g.
              Ends-weaken _ (after_asking runs v (rw g.1 h))
                (λ b u k. (k.0, Idle-trans w v u (asking w v g.0 g.1) k.1))
                (λ _ u k. Idle-trans w v u (asking w v g.0 g.1) k))
            (λ _ v g. asking w v g.0 g.1)
        where
          asking :
              (w v : (J × Q) × S)
              → Same ports_laws.admits ports_laws.releases w.1 v.1
              → v.0 ≡ w.0
              → Idle w v
          asking w v a b = (λ j. rw b refl, a)

      pub process_job-Idle :
          (w : (J × Q) × S)
          → NotQueued (laws.find w.0.0 job_id)
          → Ends {S = (J × Q) × S}
              (λ b v. (b ≡ false) × Idle w v)
              (λ _ v. Idle w v)
              (process_job store ports settings queue request_id should_run_job job_id w)
      unfolding process_job
      process_job-Idle w h =
          Ends-bind (on_first (on_first (store.get job_id))) _ w
            (Ends-on_first (on_first (store.get job_id)) w.0 w.1
              (Ends-on_first (store.get job_id) w.0.0 w.0.1 (laws.get_law job_id w.0.0)))
            (λ found v g.
              Ends-weaken _ (go (is_runnable found) v (subst NotQueued (sym (g.0.0.1 job_id)) h))
                (λ b u k. (k.0, Idle-trans w v u (reading w v g.0.0.1 g.1) k.1))
                (λ _ u k. Idle-trans w v u (reading w v g.0.0.1 g.1) k))
            (λ _ v g. reading w v g.0.0 g.1)
        where
          reading : (w v : (J × Q) × S) → SameJobs laws.find w.0.0 v.0.0 → v.1 ≡ w.1 → Idle w v
          reading w v a b = (a, (rw b refl, rw b refl))
