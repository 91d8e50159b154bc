-- ===== src/Batch/Status.antt =====
-- The states of a batch job and the transitions between them (backend/services/batch/batch_service.py).
use llm_inference_gpu_server.Common.{ℕ, suc, zero, String, ◌≡◌, refl, Bool, true, false}

-- `BatchJobStatus`; the column of the table is a text, so it could hold another.
pub data Status : Type 0 where
  queued running succeeded failed cancelled : Status
  other_status : String → Status

-- `status in TERMINAL_STATUSES`
unfoldable pub is_terminal : Status → Bool
is_terminal succeeded = true
is_terminal failed = true
is_terminal cancelled = true
is_terminal _ = false

-- `target in ALLOWED_TRANSITIONS.get(current, set())`
unfoldable pub can_transition : Status → Status → Bool
can_transition queued running = true
can_transition queued cancelled = true
can_transition queued failed = true
can_transition running succeeded = true
can_transition running failed = true
can_transition running cancelled = true
can_transition _ _ = false

-- `status == CANCELLED`, `status == QUEUED`
abbrev pub is_cancelled : Status → Bool
is_cancelled cancelled = true
is_cancelled _ = false

abbrev pub is_queued : Status → Bool
is_queued queued = true
is_queued _ = false

-- The life of a job: it is started once, it ends once, and it may be given up before either.
infix 40 ◌⟶◌
pub data ◌⟶◌ : Status → Status → Type 0 where
  start : queued ⟶ running
  finish : running ⟶ succeeded
  break_off : running ⟶ failed
  reject : queued ⟶ failed
  cancel_queued : queued ⟶ cancelled
  cancel_running : running ⟶ cancelled

-- Any number of steps, with their number.
pub data Steps : ℕ → Status → Status → Type 0 where
  here : {s : Status} → Steps zero s s
  then : {n : ℕ} {s t u : Status} → s ⟶ t → Steps n t u → Steps (suc n) s u

pub is_terminal-can_transition : (s t : Status) → is_terminal s ≡ true → can_transition s t ≡ false
unfolding is_terminal can_transition
is_terminal-can_transition queued t h = absurd (cc)
is_terminal-can_transition running t h = absurd (cc)
is_terminal-can_transition succeeded t h = refl
is_terminal-can_transition failed t h = refl
is_terminal-can_transition cancelled t h = refl
is_terminal-can_transition (other_status x) t h = absurd (cc)
