-- ===== src/Batch/Worker/Drain.antt =====
-- A worker that is let run empties its queue (backend/services/batch/batch_worker.py,
-- backend/workers/batch_worker.py).
use llm_inference_gpu_server.Common.{
  ⊤, ℕ, zero, suc, String, ◌≡◌, refl, ap, ◌∙◌, Option, none, some, List, [], ◌≤◌, inl, inr, drop,
  length, drop_one_drop, drop_all,
}
use llm_inference_gpu_server.Errors.{Action, pure, ◌>>◌}
use llm_inference_gpu_server.Errors.Ends.{Ends, Ends-pure, Ends-then, Ends-bind, Ends-weaken}
use llm_inference_gpu_server.Errors.Parts.{on_first, on_second, Ends-on_first, Ends-on_second}
use llm_inference_gpu_server.Inference.Ports.{Ports}
use llm_inference_gpu_server.Batch.Store.{BatchJobStore}
use llm_inference_gpu_server.Batch.Queue.{BatchQueue, QueueLaws, Taken}
use llm_inference_gpu_server.Batch.Worker.{WorkerSettings, process_one}
use llm_inference_gpu_server.Batch.Worker.QueueKept.{process_taken-Keeps}

module _ {J Q S L : Type 0} (store : BatchJobStore J) (ports : Ports S L)
    (settings : WorkerSettings) {queue : BatchQueue Q} (laws : QueueLaws queue) where
  abbrev pub waits : (J × Q) × S → List String
  waits w = laws.waiting w.0.1

  Taken-drop :
      (before after : List String) (o : Option String)
      → Taken before o after
      → after ≡ drop 1 before
  Taken-drop before after none h = rw (h.0, h.1) refl
  Taken-drop before after (some x) h = rw h refl

  -- Jobs leave the queue at its front only.
  abbrev pub Behind : (J × Q) × S → (J × Q) × S → Type 0
  Behind w v = (n : ℕ) × (waits v ≡ drop n (waits w))

  process_one-drop :
      (request_id : String) (w : (J × Q) × S)
      → Ends {S = (J × Q) × S}
          (λ _ v. waits v ≡ drop 1 (waits w))
          (λ _ v. Behind w v)
          (process_one store ports settings queue request_id none w)
  unfolding process_one
  process_one-drop request_id w =
      Ends-bind (on_first (on_second queue.dequeue)) _ w
        (Ends-on_first (on_second queue.dequeue) w.0 w.1
          (Ends-on_second queue.dequeue w.0.0 w.0.1 (laws.dequeue_law w.0.1)))
        (λ o v g.
          let front = Taken-drop (waits w) (waits v) o g.0.0 in
          Ends-weaken _
            ((process_taken-Keeps store ports settings v.0.1 queue request_id o).keeps v refl)
            (λ _ u k. ap laws.waiting k ∙ front) (λ _ u k. (1, ap laws.waiting k ∙ front)))
        (λ _ v g. elim g.0.0 [
          | inl (o, t) ↦ (1, Taken-drop (waits w) (waits v) o t)
          | inr e ↦ (0, e)
        ])

  -- The loop of the worker's process, for a number of rounds, each with the identifier that is
  -- generated in it. The pause after a round without a job is left out.
  unfoldable pub rounds : ℕ → (ℕ → String) → Action ((J × Q) × S) ⊤
  rounds zero request_ids = pure tt
  rounds (suc n) request_ids =
      process_one store ports settings queue (request_ids n) none >> rounds n request_ids

  rounds-drop :
      (n : ℕ) (request_ids : ℕ → String) (w : (J × Q) × S)
      → Ends {S = (J × Q) × S}
          (λ _ v. waits v ≡ drop n (waits w))
          (λ _ v. Behind w v)
          (rounds n request_ids w)
  unfolding rounds
  rounds-drop zero request_ids w = Ends-pure tt _ _ w refl
  rounds-drop (suc n) request_ids w =
      Ends-then (process_one store ports settings queue (request_ids n) none) (rounds n request_ids)
        w (process_one-drop (request_ids n) w)
        (λ _ v g.
          Ends-weaken _ (rounds-drop n request_ids v)
            (λ _ u k. k ∙ ap (drop n) g ∙ drop_one_drop n (waits w))
            (λ _ u k. (suc k.0, k.1 ∙ ap (drop k.0) g ∙ drop_one_drop k.0 (waits w))))
        (λ _ _ k. k)

  -- A worker without the question whether to run takes up every job that waits: after as many rounds
  -- as there are jobs none waits, whatever became of them; and if a round raises, the jobs that wait
  -- are still the last ones of the queue, in their order.
  pub rounds-Drained :
      (n : ℕ) (request_ids : ℕ → String) (w : (J × Q) × S)
      → length (waits w) ≤ n
      → Ends {S = (J × Q) × S} (λ _ v. waits v ≡ []) (λ _ v. Behind w v) (rounds n request_ids w)
  rounds-Drained n request_ids w h =
      Ends-weaken _ (rounds-drop n request_ids w) (λ _ v g. g ∙ drop_all n (waits w) h) (λ _ _ g. g)
