-- ===== src/Batch/Contract.antt =====
-- What a store of batch jobs promises, whatever it keeps them in
-- (backend/services/batch/batch_service.py): the jobs as their owners see them, and an operation as a
-- step of them.
pub mod Replay
pub mod Records
use Prim.Native.String
use llm_inference_gpu_server.Common.{
  ⊤, ℕ, zero, suc, String, ◌≡◌, refl, ap, ◌⊎◌, Bool, true, false, Option, none, some, List, [], ◌∷◌,
  if◌then◌else◌,
}
pub use llm_inference_gpu_server.Common.Dict.{put_at}
use mathlib.Core.Option
use llm_inference_gpu_server.Text.{take_str}
use llm_inference_gpu_server.Errors.{Action}
use llm_inference_gpu_server.Errors.Ends.{Ends}
use llm_inference_gpu_server.Json.{Fields}
use llm_inference_gpu_server.Auth.{AuthContext}
use llm_inference_gpu_server.Batch.Status.{
  Status, queued, succeeded, failed, is_cancelled, can_transition,
}
use llm_inference_gpu_server.Batch.Job.{BatchJobRecord, new_job}
use llm_inference_gpu_server.Batch.Store.{BatchJobStore, AllQueued}

abbrev pub is_failed : Status → Bool
is_failed failed = true
is_failed _ = false

-- A job without its bookkeeping: the error of a job is seen while it is failed, 1024 characters of its
-- message.
pub record JobView : Type 0 where
  pub id : String
  pub user_id : String
  pub project_id : String
  pub api_key_id : String
  pub model : String
  pub status : Status
  pub input_payload : Fields
  pub result_payload : Option Fields
  pub error : Option (Option String × Option String)
  pub request_count : ℕ
  pub completed_count : ℕ
  pub failed_count : ℕ

abbrev pub seen_error :
    Status → Option String → Option String → Option (Option String × Option String)
seen_error status code message =
    if is_failed status then some (code, Option.map (take_str 1024) message) else none

abbrev pub view : BatchJobRecord → JobView
view job = record {
  id = job.id;
  user_id = job.user_id;
  project_id = job.project_id;
  api_key_id = job.api_key_id;
  model = job.model;
  status = job.status;
  input_payload = job.input_payload;
  result_payload = job.result_payload;
  error = seen_error job.status job.error_code job.error_message;
  request_count = job.request_count;
  completed_count = job.completed_count;
  failed_count = job.failed_count;
}

-- What each operation makes of a job, if it changes it.
unfoldable pub view_transitioned : Status → JobView → Option JobView
view_transitioned target job =
    if can_transition job.status target
    then some (record job { status = target; error = none })
    else none

unfoldable pub view_succeeded : Fields → JobView → Option JobView
view_succeeded result job =
    if is_cancelled job.status
    then none
    else some (record job {
      status = succeeded;
      result_payload = some result;
      error = none;
      completed_count = 1;
      failed_count = 0;
    })

unfoldable pub view_failed : String → String → JobView → Option JobView
view_failed code message job =
    if is_cancelled job.status
    then none
    else some (record job {
      status = failed;
      error = some (some code, some (take_str 1024 message));
      failed_count = 1;
    })

-- The jobs by their identifiers.
abbrev pub Jobs : Type 0
Jobs = String → Option JobView

abbrev pub applied : {V : Type 0} → (V → Option V) → Option V → Option V
applied f none = none
applied f (some job) = f job

abbrev pub or_old : {V : Type 0} → Option V → Option V → Option V
or_old none old = old
or_old (some job) old = some job

-- The jobs after `f` was applied at `id`.
abbrev pub changed :
    {V : Type 0} → String → (V → Option V) → (String → Option V) → String → Option V
changed id f jobs = put_at id (or_old (applied f (jobs id)) (jobs id)) jobs

module _ {J : Type 0} (jobs : J → Jobs) where
  -- The operation answers with the job that it wrote, if any. One that raises has been carried out or
  -- not.
  abbrev pub Changes :
      String → (JobView → Option JobView) → Action J (Option BatchJobRecord) → J → Type 0
  Changes id f m s =
      Ends (λ r t. (Option.map view r ≡ applied f (jobs s id)) × (jobs t ≡ changed id f (jobs s)))
        (λ _ t. (jobs t ≡ changed id f (jobs s)) ⊎ (jobs t ≡ jobs s)) (m s)

pub record Contract {J : Type 0} (store : BatchJobStore J) : Type 0 where
  pub jobs : J → Jobs
  pub create_law :
      (id : String) (auth_context : AuthContext) (payload : Fields) (model : String) (s : J)
      → jobs s id ≡ none
      → let new = view (new_job id auth_context payload model) in
        Ends
          (λ r t. (view r ≡ new) × (jobs t ≡ put_at id (some new) (jobs s)))
          (λ _ t. (jobs t ≡ put_at id (some new) (jobs s)) ⊎ (jobs t ≡ jobs s))
          (store.create id auth_context payload model s)
  pub get_law :
      (id : String) (s : J)
      → Ends
          (λ r t. (Option.map view r ≡ jobs s id) × (jobs t ≡ jobs s))
          (λ _ t. jobs t ≡ jobs s)
          (store.get id s)
  pub transition_law :
      (id : String) (target : Status) (s : J)
      → is_failed target ≡ false
      → Changes jobs id (view_transitioned target) (store.transition id target) s
  pub mark_succeeded_law :
      (id : String) (result usage : Fields) (s : J)
      → Changes jobs id (view_succeeded result) (store.mark_succeeded id result usage) s
  pub mark_failed_law :
      (id : String) (code message : String) (s : J)
      → Changes jobs id (view_failed code message) (store.mark_failed id code message) s
  pub list_recoverable_law :
      (limit : ℕ) (s : J)
      → Ends
          (λ r t. AllQueued r × (jobs t ≡ jobs s))
          (λ _ t. jobs t ≡ jobs s)
          (store.list_recoverable limit s)
