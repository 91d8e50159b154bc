-- ===== src/RateLimit/Limiter.antt =====
-- The request limiter and the overload gate (backend/services/rate_limit/rate_limiter.py).
pub mod Calls
pub mod Window
pub mod Exact
use Prim.Native.String.{◌++◌}
use llm_inference_gpu_server.Common.{
  ℕ, ⊤, ◌+◌, String, Bool, false, not, ◌||◌, Option, none, some, [], if◌then◌else◌,
}
use llm_inference_gpu_server.Common.Int.{ℤ, pos, ltb_ℤ, leb_ℤ, eqb_ℤ}
use llm_inference_gpu_server.Errors.{
  AppError, app, other, Result, ok, raise, Action, pure, raise_if, ◌>>=◌, ◌>>◌,
}
use llm_inference_gpu_server.Text.{codes, text_eq, lower}
use llm_inference_gpu_server.Redis.{RedisLike}

-- The Redis server, and the process-wide counter `REDIS_FAILURES_TOTAL`.
pub record Gate (S : Type 0) : Type 0 where
  pub redis : S
  pub redis_failures : ℕ

-- `RPM_WINDOW_SECONDS`
abbrev pub rpm_window_seconds : ℕ
rpm_window_seconds = 60

unfoldable pub rpm_key : String → String
rpm_key api_key_id = "rl:api_key:" ++ (api_key_id ++ ":rpm")

unfoldable pub tpm_key : String → String
tpm_key api_key_id = "rl:api_key:" ++ (api_key_id ++ ":tpm")

abbrev pub overload_key : String
overload_key = "overload:global"

abbrev pub dependency_unavailable : AppError
dependency_unavailable = record {
  message = "Redis dependency is unavailable";
  code = "dependency_unavailable";
  status_code = 503;
  error_type = "server_error";
  param = none;
}

abbrev pub server_overloaded : AppError
server_overloaded = record {
  message = "Server is overloaded";
  code = "server_overloaded";
  status_code = 503;
  error_type = "server_error";
  param = none;
}

abbrev pub rate_limit_exceeded : AppError
rate_limit_exceeded = record {
  message = "Rate limit exceeded";
  code = "rate_limit_exceeded";
  status_code = 429;
  error_type = "rate_limit_error";
  param = none;
}

module _ {S : Type 0} where
  -- What `_redis_call` makes of the answer of a command.
  abbrev pub redis_outcome : {A : Type 0} → Gate S → Result A × S → Result A × Gate S
  redis_outcome w (ok a, s) = (ok a, record w { redis = s })
  redis_outcome w (raise (app e), s) = (raise (app e), record w { redis = s })
  redis_outcome w (raise (other _ _), s) = (
    raise (app dependency_unavailable),
    record { redis = s; redis_failures = w.redis_failures + 1 },
  )

  -- `_redis_call`
  unfoldable pub redis_call : {A : Type 0} → Action S A → Action (Gate S) A
  redis_call m w = redis_outcome w (m w.redis)

  -- A command whose exception the caller sees as it is.
  unfoldable pub raw_call : {A : Type 0} → Action S A → Action (Gate S) A
  raw_call m w = let (r, s) = m w.redis in (r, record w { redis = s })

-- `value is not None and str(value).lower() not in {"", "0", "false", "none"}`
unfoldable pub is_overload : Option String → Bool
unfolding text_eq lower
is_overload none = false
is_overload (some value) =
    let v = lower (codes value) in
    not (
      text_eq v []
      || text_eq v (codes "0")
      || text_eq v (codes "false")
      || text_eq v (codes "none"))

module _ {S : Type 0} (redis : RedisLike S) where
  -- The limiters' `if remaining <= 0: await redis.delete(key)`
  unfoldable pub delete_if_empty : String → ℤ → Action (Gate S) ⊤
  delete_if_empty key remaining =
      if leb_ℤ remaining (pos 0) then raw_call (redis.delete key) else pure tt

  -- `RateLimiter.check_overload`
  unfoldable pub check_overload : Action (Gate S) ⊤
  check_overload = do
    value ← redis_call (redis.get overload_key)
    raise_if (is_overload value) (app server_overloaded)

  arm_window : String → ℤ → Action (Gate S) ⊤
  arm_window key count =
      if eqb_ℤ count (pos 1) then redis_call (redis.expire key rpm_window_seconds) else pure tt

  -- `RateLimiter.check_rpm`
  unfoldable pub check_rpm : String → ℤ → Action (Gate S) ⊤
  unfolding arm_window
  check_rpm api_key_id limit = do
    count ← redis_call (redis.incr (rpm_key api_key_id))
    arm_window (rpm_key api_key_id) count
    raise_if (ltb_ℤ limit count) (app rate_limit_exceeded)
