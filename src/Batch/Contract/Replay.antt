-- ===== src/Batch/Contract/Replay.antt =====
-- Sequences of operations on a store, and the same on its jobs alone
-- (backend/services/batch/batch_service.py).
use llm_inference_gpu_server.Common.{
  ⊤, String, ◌≡◌, refl, ap, ◌∙◌, subst, false, Option, none, some, List, [], ◌∷◌,
}
use mathlib.Core.Option
use llm_inference_gpu_server.Errors.{Action, pure, ◌>>=◌}
use llm_inference_gpu_server.Errors.Ends.{Ends, Ends-pure, Ends-bind}
use llm_inference_gpu_server.Json.{Fields}
use llm_inference_gpu_server.Auth.{AuthContext}
use llm_inference_gpu_server.Batch.Status.{Status}
use llm_inference_gpu_server.Batch.Job.{BatchJobRecord, new_job}
use llm_inference_gpu_server.Batch.Store.{BatchJobStore}
use llm_inference_gpu_server.Batch.Contract.{
  JobView, Jobs, view, is_failed, view_transitioned, view_succeeded, view_failed, applied, put_at,
  changed, Contract,
}

pub data Op : Type 0 where
  create : String → AuthContext → Fields → String → Op
  get : String → Op
  transition : String → Status → Op
  mark_succeeded : String → Fields → Fields → Op
  mark_failed : String → String → String → Op

-- The answer of an operation, as it is seen.
unfoldable pub perform : {J : Type 0} → BatchJobStore J → Op → Action J (Option JobView)
perform store (create id auth_context payload model) =
    store.create id auth_context payload model >>= λ r. pure (some (view r))
perform store (get id) = store.get id >>= λ r. pure (Option.map view r)
perform store (transition id target) = store.transition id target >>= λ r. pure (Option.map view r)
perform store (mark_succeeded id result usage) =
    store.mark_succeeded id result usage >>= λ r. pure (Option.map view r)
perform store (mark_failed id code message) =
    store.mark_failed id code message >>= λ r. pure (Option.map view r)

unfoldable pub perform_all :
    {J : Type 0} → BatchJobStore J → List Op → Action J (List (Option JobView))
perform_all store [] = pure []
perform_all store (op ∷ ops) =
    perform store op >>= λ answer. perform_all store ops >>= λ answers. pure (answer ∷ answers)

-- The same without a store.
unfoldable pub answer_of : Op → Jobs → Option JobView
answer_of (create id auth_context payload model) jobs =
    some (view (new_job id auth_context payload model))
answer_of (get id) jobs = jobs id
answer_of (transition id target) jobs = applied (view_transitioned target) (jobs id)
answer_of (mark_succeeded id result usage) jobs = applied (view_succeeded result) (jobs id)
answer_of (mark_failed id code message) jobs = applied (view_failed code message) (jobs id)

unfoldable pub jobs_after : Op → Jobs → Jobs
jobs_after (create id auth_context payload model) jobs =
    put_at id (some (view (new_job id auth_context payload model))) jobs
jobs_after (get id) jobs = jobs
jobs_after (transition id target) jobs = changed id (view_transitioned target) jobs
jobs_after (mark_succeeded id result usage) jobs = changed id (view_succeeded result) jobs
jobs_after (mark_failed id code message) jobs = changed id (view_failed code message) jobs

unfoldable pub answers_of : List Op → Jobs → List (Option JobView)
answers_of [] jobs = []
answers_of (op ∷ ops) jobs = answer_of op jobs ∷ answers_of ops (jobs_after op jobs)

unfoldable pub replay : List Op → Jobs → Jobs
replay [] jobs = jobs
replay (op ∷ ops) jobs = replay ops (jobs_after op jobs)

-- An identifier is created once, and a job fails with an error.
abbrev pub Allowed : Op → Jobs → Type 0
Allowed (create id auth_context payload model) jobs = jobs id ≡ none
Allowed (transition id target) jobs = is_failed target ≡ false
Allowed _ jobs = ⊤

abbrev pub AllAllowed : List Op → Jobs → Type 0
AllAllowed [] jobs = ⊤
AllAllowed (op ∷ ops) jobs = Allowed op jobs × AllAllowed ops (jobs_after op jobs)

module _ {J : Type 0} {store : BatchJobStore J} (contract : Contract store) where
  viewed :
      (m : Action J (Option BatchJobRecord)) (s : J) (answer : Option JobView) (after : Jobs)
      (R : J → Type 0)
      → Ends (λ r t. (Option.map view r ≡ answer) × (contract.jobs t ≡ after)) (λ _ t. R t) (m s)
      → Ends
          (λ a t. (a ≡ answer) × (contract.jobs t ≡ after))
          (λ _ _. ⊤)
          ((m >>= λ r. pure (Option.map view r)) s)
  viewed m s answer after R h = Ends-bind m _ s h (λ r t g. Ends-pure _ _ _ t g) (λ _ _ _. tt)

  perform-Refines :
      (op : Op) (s : J)
      → Allowed op (contract.jobs s)
      → Ends
          (λ answer t.
            (answer ≡ answer_of op (contract.jobs s))
            × (contract.jobs t ≡ jobs_after op (contract.jobs s)))
          (λ _ _. ⊤)
          (perform store op s)
  unfolding perform answer_of jobs_after
  perform-Refines (create id auth_context payload model) s h =
      Ends-bind _ _ s (contract.create_law id auth_context payload model s h)
        (λ r t g. Ends-pure _ _ _ t (ap some g.0, g.1)) (λ _ _ _. tt)
  perform-Refines (get id) s h = viewed (store.get id) s _ _ _ (contract.get_law id s)
  perform-Refines (transition id target) s h =
      viewed (store.transition id target) s _ _ _ (contract.transition_law id target s h)
  perform-Refines (mark_succeeded id result usage) s h =
      viewed (store.mark_succeeded id result usage) s _ _ _
        (contract.mark_succeeded_law id result usage s)
  perform-Refines (mark_failed id code message) s h =
      viewed (store.mark_failed id code message) s _ _ _
        (contract.mark_failed_law id code message s)

  perform-at :
      (op : Op) (s : J) (before : Jobs)
      → contract.jobs s ≡ before
      → Allowed op before
      → Ends
          (λ answer t. (answer ≡ answer_of op before) × (contract.jobs t ≡ jobs_after op before))
          (λ _ _. ⊤)
          (perform store op s)
  perform-at op s before e =
      subst
        (λ b.
          Allowed op b
          → Ends (λ answer t. (answer ≡ answer_of op b) × (contract.jobs t ≡ jobs_after op b))
              (λ _ _. ⊤) (perform store op s))
        e (perform-Refines op s)

  pub perform_all-Refines :
      (ops : List Op) (s : J) (before : Jobs)
      → contract.jobs s ≡ before
      → AllAllowed ops before
      → Ends
          (λ answers t. (answers ≡ answers_of ops before) × (contract.jobs t ≡ replay ops before))
          (λ _ _. ⊤)
          (perform_all store ops s)
  unfolding perform_all answers_of replay
  perform_all-Refines [] s before e h = Ends-pure [] _ _ s (refl, e)
  perform_all-Refines (op ∷ ops) s before e (a, h) =
      Ends-bind (perform store op) _ s (perform-at op s before e a)
        (λ answer t g.
          Ends-bind (perform_all store ops) _ t
            (perform_all-Refines ops t (jobs_after op before) g.1 h)
            (λ answers u k.
              Ends-pure (answer ∷ answers) _ _ u
                (ap (λ x. x ∷ answers) g.0 ∙ ap (λ xs. answer_of op before ∷ xs) k.0, k.1))
            (λ _ _ _. tt))
        (λ _ _ _. tt)
