-- ===== src/RateLimit/Quota.antt =====
-- The reservation of tokens per minute (backend/services/rate_limit/quota_reserver.py).
pub mod Charge
use llm_inference_gpu_server.Common.{
  ⊤, ℕ, String, Bool, true, false, not, ◌||◌, Option, none, some, if◌then◌else◌,
}
use llm_inference_gpu_server.Common.Int.{ℤ, pos, ◌-ℤ◌, ltb_ℤ, leb_ℤ, eqb_ℤ}
use llm_inference_gpu_server.Errors.{AppError, app, Action, pure, throw, try_except, ◌>>=◌, ◌>>◌}
use llm_inference_gpu_server.Redis.{RedisLike}
use llm_inference_gpu_server.RateLimit.Limiter.{
  Gate, tpm_key, redis_call, raw_call, delete_if_empty,
}

-- `TPM_WINDOW_SECONDS`
abbrev pub tpm_window_seconds : ℕ
tpm_window_seconds = 60

-- `TokenReservation` and `NoopTokenReservation`, behind `TokenReservationLike`.
pub data TokenReservation : Type 0 where
  reservation : (key : String) → (reserved_tokens : ℤ) → (finalized : Bool) → TokenReservation
  noop : (reserved_tokens : ℤ) → TokenReservation

abbrev pub token_rate_limit_exceeded : AppError
token_rate_limit_exceeded = record {
  message = "Token rate limit exceeded";
  code = "token_rate_limit_exceeded";
  status_code = 429;
  error_type = "rate_limit_error";
  param = none;
}

-- `self.reserved_tokens if release_all else self.reserved_tokens - actual_tokens`
unfoldable pub tokens_to_release : ℤ → ℤ → Bool → ℤ
tokens_to_release reserved actual release_all = if release_all then reserved else reserved -ℤ actual

module _ {S : Type 0} (redis : RedisLike S) where
  -- The unused tokens are given back; an exception is logged and dropped.
  unfoldable pub refund : String → ℤ → Action (Gate S) ⊤
  refund key tokens =
      try_except
        (do remaining ← raw_call (redis.decrby key tokens); delete_if_empty redis key remaining)
        (λ _. pure tt)

  -- `TokenReservation.finalize` and `NoopTokenReservation.finalize`, which return the reservation as
  -- it is left.
  unfoldable pub finalize : TokenReservation → ℤ → Bool → Action (Gate S) TokenReservation
  finalize (noop n) actual release_all = pure (noop n)
  finalize (reservation key reserved true) actual release_all = pure (reservation key reserved true)
  finalize (reservation key reserved false) actual release_all =
      if leb_ℤ (tokens_to_release reserved actual release_all) (pos 0)
      then pure (reservation key reserved true)
      else refund key (tokens_to_release reserved actual release_all)
        >> pure (reservation key reserved true)

  unfoldable pub arm_tokens : String → ℤ → ℤ → Action (Gate S) ⊤
  arm_tokens key count estimated =
      if eqb_ℤ count estimated then redis_call (redis.expire key tpm_window_seconds) else pure tt

  -- The rejected tokens are rolled back; an exception is logged and dropped.
  unfoldable pub reject_tokens : String → ℤ → Action (Gate S) TokenReservation
  reject_tokens key estimated =
      try_except (raw_call (redis.decrby key estimated) >> pure tt) (λ _. pure tt)
      >> throw (app token_rate_limit_exceeded)

  -- What `reserve` does once there is a client and something to reserve.
  unfoldable pub reserve_tokens : ℤ → String → ℤ → Action (Gate S) TokenReservation
  reserve_tokens tpm_limit key estimated = do
    count ← redis_call (redis.incrby key estimated)
    arm_tokens key count estimated
    if ltb_ℤ tpm_limit count
        then reject_tokens key estimated
        else pure (reservation key estimated false)

  -- `QuotaReserver.reserve`; `has_redis` is `self._redis is not None`.
  unfoldable pub reserve : Bool → ℤ → String → ℤ → Action (Gate S) TokenReservation
  reserve has_redis tpm_limit api_key_id estimated =
      if not has_redis || leb_ℤ estimated (pos 0)
      then pure (noop (if leb_ℤ estimated (pos 0) then pos 0 else estimated))
      else reserve_tokens tpm_limit (tpm_key api_key_id) estimated
