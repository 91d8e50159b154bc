-- ===== src/RateLimit/Concurrency.antt =====
-- The limiter of concurrent requests (backend/services/rate_limit/concurrency_limiter.py).
pub mod Slots
pub mod Pool
use Prim.Native.String.{◌++◌}
use llm_inference_gpu_server.Common.{⊤, String, Bool, true, false, none, if◌then◌else◌}
use llm_inference_gpu_server.Common.Int.{ℤ, pos, ltb_ℤ, leb_ℤ}
use llm_inference_gpu_server.Errors.{
  AppError, app, Action, pure, throw, raise_if, try_except, ◌>>=◌, ◌>>◌,
}
use llm_inference_gpu_server.Redis.{RedisLike}
use llm_inference_gpu_server.RateLimit.Limiter.{Gate, redis_call, raw_call, delete_if_empty}

unfoldable pub concurrency_key : String → String
concurrency_key api_key_id = "concurrent:api_key:" ++ api_key_id

-- `ConcurrencyLease`; the client `redis` is the argument of its methods.
pub record ConcurrencyLease : Type 0 where
  pub key : String
  pub released : Bool

abbrev pub concurrency_limit_exceeded : AppError
concurrency_limit_exceeded = record {
  message = "Concurrent request limit exceeded";
  code = "concurrency_limit_exceeded";
  status_code = 429;
  error_type = "rate_limit_error";
  param = none;
}

module _ {S : Type 0} (redis : RedisLike S) where
  -- The slot is given back; an exception is logged and dropped.
  unfoldable pub give_back : String → Action (Gate S) ⊤
  give_back key =
      try_except (do remaining ← raw_call (redis.decr key); delete_if_empty redis key remaining)
        (λ _. pure tt)

  -- `ConcurrencyLease.release`, which returns the lease as it is left.
  unfoldable pub release : ConcurrencyLease → Action (Gate S) ConcurrencyLease
  release lease =
      if lease.released
      then pure lease
      else give_back lease.key >> pure (record lease { released = true })

  -- The rejected slot is rolled back; an exception is logged and dropped.
  unfoldable pub reject : String → Action (Gate S) ConcurrencyLease
  reject key =
      try_except (raw_call (redis.decr key) >> pure tt) (λ _. pure tt)
      >> throw (app concurrency_limit_exceeded)

  -- `ConcurrencyLimiter.acquire`
  unfoldable pub acquire : String → ℤ → Action (Gate S) ConcurrencyLease
  acquire api_key_id limit = do
    count ← redis_call (redis.incr (concurrency_key api_key_id))
    if ltb_ℤ limit count
        then reject (concurrency_key api_key_id)
        else pure (record { key = concurrency_key api_key_id; released = false })
