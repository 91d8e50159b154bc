-- ===== src/RateLimit/Admission.antt =====
-- The admission of a request (backend/services/rate_limit/admission.py).
pub mod Outcome
pub mod Lifecycle
use llm_inference_gpu_server.Common.{⊤, String, Bool, false}
use llm_inference_gpu_server.Common.Int.{ℤ, pos}
use llm_inference_gpu_server.Errors.{Action, pure, ◌>>=◌, ◌>>◌}
use llm_inference_gpu_server.Redis.{RedisLike}
use llm_inference_gpu_server.Auth.{AuthContext}
use llm_inference_gpu_server.RateLimit.Limiter.{Gate, check_overload, check_rpm}
use llm_inference_gpu_server.RateLimit.Concurrency.{ConcurrencyLease}
use llm_inference_gpu_server.RateLimit.Concurrency
use llm_inference_gpu_server.RateLimit.Quota.{TokenReservation}
use llm_inference_gpu_server.RateLimit.Quota

-- `Releasable`: a lease, or the `_NoopConcurrencyLease` of tests.
pub data Releasable : Type 0 where
  slot : ConcurrencyLease → Releasable
  noop_slot : Releasable

-- `AdmissionLease`
pub record AdmissionLease : Type 0 where
  pub concurrency : Releasable
  pub token_reservation : TokenReservation

-- The settings of `AdmissionService` and of its `QuotaReserver`.
pub record AdmissionService : Type 0 where
  pub rpm_limit : ℤ
  pub concurrent_request_limit : ℤ
  pub has_redis : Bool
  pub tpm_limit : ℤ

module _ {S : Type 0} (redis : RedisLike S) where
  unfoldable pub release_slot : Releasable → Action (Gate S) Releasable
  release_slot noop_slot = pure noop_slot
  release_slot (slot l) = do l' ← Concurrency.release redis l; pure (slot l')

  -- `AdmissionLease.release`
  unfoldable pub release : AdmissionLease → Action (Gate S) AdmissionLease
  release lease = do
    c ← release_slot lease.concurrency
    pure (record { concurrency = c; token_reservation = lease.token_reservation })

  -- `AdmissionLease.finalize_tokens`
  unfoldable pub finalize_tokens : AdmissionLease → ℤ → Bool → Action (Gate S) AdmissionLease
  finalize_tokens lease actual release_all = do
    t ← Quota.finalize redis lease.token_reservation actual release_all
    pure (record { concurrency = lease.concurrency; token_reservation = t })

  -- `AdmissionService.admit`
  unfoldable pub admit : AdmissionService → AuthContext → ℤ → Action (Gate S) AdmissionLease
  admit service auth_context estimated_tokens = do
    check_overload redis
    check_rpm redis auth_context.api_key_id service.rpm_limit
    concurrency ← Concurrency.acquire redis auth_context.api_key_id service.concurrent_request_limit
    token_reservation ←
        Quota.reserve redis service.has_redis service.tpm_limit auth_context.api_key_id
          estimated_tokens
    pure (record { concurrency = slot concurrency; token_reservation = token_reservation })

  -- `NoopAdmissionService.admit`
  unfoldable pub noop_admit : AuthContext → ℤ → Action (Gate S) AdmissionLease
  noop_admit auth_context estimated_tokens = do
    token_reservation ←
        Quota.reserve redis false default_tpm_limit auth_context.api_key_id estimated_tokens
    pure (record { concurrency = noop_slot; token_reservation = token_reservation })
    where
      default_tpm_limit : ℤ
      default_tpm_limit = pos 60000
