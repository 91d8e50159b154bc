-- ===== src/Batch/Worker/Settled.antt =====
-- A worker releases each lease that it takes, once, however a job ends
-- (backend/services/batch/batch_worker.py).
use llm_inference_gpu_server.Common.{
  ◌+◌, String, ◌≡◌, refl, ◌∙◌, ap, ◌⊎◌, inl, inr, Bool, true, false, Option, none, some,
  if◌then◌else◌,
}
use llm_inference_gpu_server.Errors.{
  Result, ok, raise, Action, pure, ◌>>=◌, ◌>>◌, try_except, try_finally,
}
use llm_inference_gpu_server.Errors.Ends.{
  Ends, Ends-pure, Ends-then, Ends-bind, Ends-weaken, Ends-try_except, Ends-try_finally, Ends-any,
}
use llm_inference_gpu_server.Errors.Parts.{on_first, on_second, Ends-on_first, Ends-on_second}
use llm_inference_gpu_server.Inference.Ports.{Ports, PortsLaws, Same, Quiet}
use llm_inference_gpu_server.Batch.Status.{running}
use llm_inference_gpu_server.Batch.Job.{BatchJobRecord}
use llm_inference_gpu_server.Batch.Store.{BatchJobStore}
use llm_inference_gpu_server.Batch.Queue.{BatchQueue}
use llm_inference_gpu_server.Batch.Worker.{
  Locals, no_locals, WorkerSettings, get_locals, release_lease, attempt, attempt_failed, clean_up,
  run_job, run_started, process_taken, asked, is_runnable, start_job, process_job, process_one,
}
use llm_inference_gpu_server.Batch.Worker.Balance.{
  Holding, Inv, attempt_failed-Keeps, attempt-Holding,
}

module _ {S L : Type 0} {ports : Ports S L} (laws : PortsLaws ports) where
  -- Since `s`, no lease was taken, or one was and was released once.
  abbrev pub Settled : S → S → Type 0
  Settled s t =
      Same laws.admits laws.releases s t
      ⊎ ((laws.admits t ≡ laws.admits s + 1) × (laws.releases t ≡ laws.releases s + 1))

  module _ {J Q : Type 0} (s : S) where
    release_lease-Settled :
        (o : Option L) (v : Locals L × ((J × Q) × S))
        → Holding laws (laws.admits s) (laws.releases s) o v.1.1
        → Ends {S = Locals L × ((J × Q) × S)}
            (λ _ u. Settled s u.1.1)
            (λ _ u. Settled s u.1.1)
            (on_second (on_second (release_lease ports o)) v)
    release_lease-Settled none v h =
        Ends-weaken (on_second (on_second (pure tt)) v)
          (Ends-on_second (on_second (pure tt)) v.0 v.1 (
            Ends-on_second (pure tt) v.1.0 v.1.1
              (Ends-pure tt (λ _ t. t ≡ v.1.1) (λ _ _. ⊥) v.1.1 refl)))
          (λ _ u g. rw g.0.0 (inl h)) (λ _ u g. absurd g.0.0)
    release_lease-Settled (some lease) v h =
        Ends-weaken (on_second (on_second (ports.release lease)) v)
          (Ends-on_second (on_second (ports.release lease)) v.0 v.1
            (Ends-on_second (ports.release lease) v.1.0 v.1.1 (laws.release_law lease v.1.1)))
          (λ _ u g. inr (g.0.0.0 ∙ h.0, g.0.0.1 ∙ ap (λ n. n + 1) h.1))
          (λ _ u g. inr (g.0.0.0 ∙ h.0, g.0.0.1 ∙ ap (λ n. n + 1) h.1))

    clean_up-Settled :
        (store : BatchJobStore J) (settings : WorkerSettings) (v : Locals L × ((J × Q) × S))
        → Inv laws (laws.admits s) (laws.releases s) v
        → Ends {S = Locals L × ((J × Q) × S)}
            (λ _ u. Settled s u.1.1)
            (λ _ u. Settled s u.1.1)
            (clean_up store ports settings v)
    unfolding clean_up on_first get_locals ◌>>=◌
    clean_up-Settled store settings v i = release_lease-Settled v.0.admission_lease v i

  module _ {J Q : Type 0} (store : BatchJobStore J) (settings : WorkerSettings) where
    run_job-Settled :
        (request_id job_id : String) (job : BatchJobRecord) (w : (J × Q) × S)
        → Ends {S = (J × Q) × S}
            (λ _ v. Settled w.1 v.1)
            (λ _ v. Settled w.1 v.1)
            (run_job store ports settings request_id job_id job w)
    unfolding run_job
    run_job-Settled request_id job_id job w =
        dropped
          (try_finally
            (try_except (attempt store ports settings request_id job_id job)
              (attempt_failed store ports settings job_id))
            (clean_up store ports settings) (no_locals, w))
          (Ends-try_finally
            (try_except (attempt store ports settings request_id job_id job)
              (attempt_failed store ports settings job_id))
            (clean_up store ports settings) (no_locals, w)
            (Ends-try_except (attempt store ports settings request_id job_id job)
              (attempt_failed store ports settings job_id) (no_locals, w)
              (attempt-Holding laws (laws.admits w.1) (laws.releases w.1) store settings request_id
                job_id job w (refl, refl))
              (λ e v i.
                (attempt_failed-Keeps laws (laws.admits w.1) (laws.releases w.1) store settings
                    job_id e).keeps
                  v i))
            (λ _ v i. clean_up-Settled w.1 store settings v i)
            (λ _ v i. clean_up-Settled w.1 store settings v i))
      where
        dropped :
            (x : Result Bool × (Locals L × ((J × Q) × S)))
            → Ends {S = Locals L × ((J × Q) × S)}
                (λ _ v. Settled w.1 v.1.1)
                (λ _ v. Settled w.1 v.1.1)
                x
            → Ends {S = (J × Q) × S}
                (λ _ v. Settled w.1 v.1)
                (λ _ v. Settled w.1 v.1)
                (let (r, (v, w')) = x in (r, w'))
        dropped (ok b, (v, u)) h = record { holds = h.holds }
        dropped (raise e, (v, u)) h = record { holds = h.holds }

    module _ (queue : BatchQueue Q) (request_id : String) where
      -- The calls of the store and of the queue take and release nothing.
      untouched :
          {A : Type 0} (m : Action (J × Q) A) (w : (J × Q) × S)
          → Ends {S = (J × Q) × S} (λ _ v. v.1 ≡ w.1) (λ _ v. v.1 ≡ w.1) (on_first m w)
      untouched m w =
          Ends-weaken (on_first m w) (Ends-on_first m w.0 w.1 (Ends-any (m w.0))) (λ _ _ g. g.1)
            (λ _ _ g. g.1)

      settle :
          {A B : Type 0} (m : Action (J × Q) A) (f : A → Action ((J × Q) × S) B) (w : (J × Q) × S)
          → ((x : A) (v : (J × Q) × S)
              → Ends {S = (J × Q) × S} (λ _ u. Settled v.1 u.1) (λ _ u. Settled v.1 u.1) (f x v))
          → Ends {S = (J × Q) × S}
              (λ _ u. Settled w.1 u.1)
              (λ _ u. Settled w.1 u.1)
              ((on_first m >>= f) w)
      settle m f w k =
          Ends-bind (on_first m) f w (untouched m w)
            (λ x v same. Ends-weaken (f x v) (k x v) (λ _ u g. rw⁻¹ same g) (λ _ u g. rw⁻¹ same g))
            (λ _ v same. inl (rw same refl, rw same refl))

      leave :
          (b : Bool) (v : (J × Q) × S)
          → Ends {S = (J × Q) × S} (λ _ u. Settled v.1 u.1) (λ _ u. Settled v.1 u.1) (pure b v)
      leave b v = Ends-pure b _ _ v (inl (refl, refl))

      start_job-Settled :
          (job_id : String) (w : (J × Q) × S)
          → Ends {S = (J × Q) × S}
              (λ _ v. Settled w.1 v.1)
              (λ _ v. Settled w.1 v.1)
              (start_job store ports settings queue request_id job_id w)
      unfolding start_job run_started
      start_job-Settled job_id w =
          settle (on_first (store.transition job_id running)) _ w (λ started v. after started v)
        where
          after :
              (started : Option BatchJobRecord) (v : (J × Q) × S)
              → Ends {S = (J × Q) × S}
                  (λ _ u. Settled v.1 u.1)
                  (λ _ u. Settled v.1 u.1)
                  (run_started store ports settings queue request_id job_id started v)
          after none v = leave false v
          after (some job) v = run_job-Settled request_id job_id job v

      module _ (should_run_job : Option (Action S Bool))
          (quiet : Quiet laws.admits laws.releases (asked should_run_job)) where
        after_asking :
            (job_id : String) (runs : Bool) (v : (J × Q) × S)
            → Ends {S = (J × Q) × S}
                (λ _ u. Settled v.1 u.1)
                (λ _ u. Settled v.1 u.1)
                ((if runs
                    then start_job store ports settings queue request_id job_id
                    else on_first (on_second (queue.enqueue job_id)) >> pure false)
                  v)
        after_asking job_id true v = start_job-Settled job_id v
        after_asking job_id false v =
            Ends-then (on_first (on_second (queue.enqueue job_id))) (pure false) v
              (untouched (on_second (queue.enqueue job_id)) v)
              (λ _ u same. Ends-pure false _ _ u (inl (rw same refl, rw same refl)))
              (λ _ u same. inl (rw same refl, rw same refl))

        ask :
            (job_id : String) (w : (J × Q) × S)
            → Ends {S = (J × Q) × S}
                (λ _ v. Settled w.1 v.1)
                (λ _ v. Settled w.1 v.1)
                ((on_second (asked should_run_job) >>= (λ runs.
                    if runs
                    then start_job store ports settings queue request_id job_id
                    else on_first (on_second (queue.enqueue job_id)) >> pure false))
                  w)
        ask job_id w =
            Ends-bind (on_second (asked should_run_job)) _ w
              (Ends-on_second (asked should_run_job) w.0 w.1 (quiet.ends w.1))
              (λ runs v h.
                Ends-weaken _ (after_asking job_id runs v) (λ _ u g. since w v u h.0 g)
                  (λ _ u g. since w v u h.0 g))
              (λ _ v h. inl h.0)
          where
            since :
                (w v u : (J × Q) × S)
                → Same laws.admits laws.releases w.1 v.1
                → Settled v.1 u.1
                → Settled w.1 u.1
            since w v u h (inl g) = inl (g.0 ∙ h.0, g.1 ∙ h.1)
            since w v u h (inr g) = inr (g.0 ∙ ap (λ n. n + 1) h.0, g.1 ∙ ap (λ n. n + 1) h.1)

        process_job-Settled :
            (job_id : String) (w : (J × Q) × S)
            → Ends {S = (J × Q) × S}
                (λ _ v. Settled w.1 v.1)
                (λ _ v. Settled w.1 v.1)
                (process_job store ports settings queue request_id should_run_job job_id w)
        unfolding process_job
        process_job-Settled job_id w =
            settle (on_first (store.get job_id)) _ w (λ found v. go (is_runnable found) v)
          where
            go :
                (b : Bool) (v : (J × Q) × S)
                → Ends {S = (J × Q) × S}
                    (λ _ u. Settled v.1 u.1)
                    (λ _ u. Settled v.1 u.1)
                    ((if b
                        then on_second (asked should_run_job) >>= (λ runs.
                          if runs
                          then start_job store ports settings queue request_id job_id
                          else on_first (on_second (queue.enqueue job_id)) >> pure false)
                        else pure false)
                      v)
            go true v = ask job_id v
            go false v = leave false v

        pub process_one-Settled :
            (w : (J × Q) × S)
            → Ends {S = (J × Q) × S}
                (λ _ v. Settled w.1 v.1)
                (λ _ v. Settled w.1 v.1)
                (process_one store ports settings queue request_id should_run_job w)
        unfolding process_one process_taken
        process_one-Settled w = settle (on_second queue.dequeue) _ w (λ taken v. go taken v)
          where
            go :
                (taken : Option String) (v : (J × Q) × S)
                → Ends {S = (J × Q) × S}
                    (λ _ u. Settled v.1 u.1)
                    (λ _ u. Settled v.1 u.1)
                    (process_taken store ports settings queue request_id should_run_job taken v)
            go none v = leave false v
            go (some job_id) v = process_job-Settled job_id v
