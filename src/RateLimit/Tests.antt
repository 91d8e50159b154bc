-- ===== src/RateLimit/Tests.antt =====
-- The theorems about admission at concrete requests, on a server in memory.
use llm_inference_gpu_server.Common.{◌≡◌, ◌⊎◌, refl, none, inl, true, false, List, [], ◌∷◌, arith}
use llm_inference_gpu_server.Common.Int.{pos, ◌+ℤ◌, ◌≤ℤ◌}
use llm_inference_gpu_server.Errors.{app}
use llm_inference_gpu_server.Errors.Ends.{Ends}
use llm_inference_gpu_server.Redis.Memory.{
  Memory, memory_redis, memory_laws, memory_answers, empty_memory,
}
use llm_inference_gpu_server.Auth.{AuthContext}
use llm_inference_gpu_server.RateLimit.Limiter.{Gate, rpm_key}
use llm_inference_gpu_server.RateLimit.Limiter.Calls.{count_at, Sets}
use llm_inference_gpu_server.RateLimit.Limiter.Window.{check_many, check_many-le-limit}
use llm_inference_gpu_server.RateLimit.Concurrency.Pool.{
  SlotOp, take_slot, give_slot, held, run_ops, IsAccounted, run_ops-Accounted,
}
use llm_inference_gpu_server.RateLimit.Quota.{token_rate_limit_exceeded}
use llm_inference_gpu_server.RateLimit.Quota.Charge.{
  charged, reserve_and_finalize, reserve-finalize-charged,
}
use llm_inference_gpu_server.RateLimit.Admission.{AdmissionService}
use llm_inference_gpu_server.RateLimit.Admission.Outcome.{Moved, Refusal}
use llm_inference_gpu_server.RateLimit.Admission.Lifecycle.{serve, serve-Moved}

abbrev gate : Gate Memory
gate = record { redis = empty_memory; redis_failures = 0 }

abbrev service : AdmissionService
service = record {
  rpm_limit = pos 10;
  concurrent_request_limit = pos 2;
  has_redis = true;
  tpm_limit = pos 100;
}

abbrev auth : AuthContext
auth = record {
  api_key_id = "key_test";
  user_id = "user_test";
  project_id = "project_test";
  allowed_models = none;
}

check_many-le-limit_example :
    let m = (check_many memory_redis "key_test" (pos 2) 5 gate).0 in
    (m ≡ 0) ⊎ (count_at memory_laws gate (rpm_key "key_test") +ℤ pos m ≤ℤ pos 2)
check_many-le-limit_example = check_many-le-limit memory_redis memory_laws "key_test" (pos 2) 5 gate

abbrev ops : List SlotOp
ops = take_slot ∷ take_slot ∷ take_slot ∷ give_slot 0 ∷ give_slot 0 ∷ []

run_ops-Accounted_example :
    let p = run_ops memory_redis "key_test" (pos 2) ops (gate, []) in
    IsAccounted memory_redis memory_laws "key_test" (pos 2) p.0 p.1
unfolding held
run_ops-Accounted_example =
    run_ops-Accounted memory_redis memory_laws memory_answers "key_test" (pos 2) ops (gate, [])
      (refl, tt, inl refl)

reserve-finalize-charged_example :
    Ends
      (λ _ u.
        Sets memory_laws "k"
          (count_at memory_laws gate "k" +ℤ charged (pos 30) (pos 12) false)
          gate
          u)
      (λ e u.
        (e ≡ app token_rate_limit_exceeded)
        × Sets memory_laws "k" (count_at memory_laws gate "k") gate u)
      (reserve_and_finalize memory_redis (pos 100) "k" (pos 30) (pos 12) false gate)
reserve-finalize-charged_example =
    reserve-finalize-charged memory_redis memory_laws memory_answers (pos 100) "k" (pos 30) (pos 12)
      false gate (omega arith) (omega arith) (omega arith)

serve-Moved_example :
    Ends
      (λ _ u.
        Moved memory_redis memory_laws "key_test"
          (pos 1)
          (pos 0)
          (charged (pos 30) (pos 12) false)
          gate
          u)
      (λ e u. Refusal memory_redis memory_laws service "key_test" (pos 30) gate e u)
      (serve memory_redis service auth (pos 30) (pos 12) false gate)
serve-Moved_example =
    serve-Moved memory_redis memory_laws memory_answers service auth (pos 30) (pos 12) false gate
      refl (omega arith) (omega arith) (omega arith) (omega arith)
