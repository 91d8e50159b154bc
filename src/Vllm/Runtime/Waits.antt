-- ===== src/Vllm/Runtime/Waits.antt =====
-- The waits end (backend/services/vllm/runtime.py, backend/scripts/wait_for_http.py).
use llm_inference_gpu_server.Common.{
  ⊤, ℕ, zero, suc, ◌+◌, ◌≤◌, ◌<◌, String, ◌≡◌, Bool, true, false, Option, none, some, ltb, inl, inr,
  Bool-cases, arith,
}
use llm_inference_gpu_server.Errors.{Exc, app, other, Result, ok, raise}
use llm_inference_gpu_server.Vllm.Runtime.{
  Polling, is_ready, is_reachable, accepts, poll, vllm_not_ready, wait_for_vllm_ready,
  wait_for_http,
}

-- Time does not go back, and a sleep takes as long as it was asked for.
pub record PollingLaws {H : Type 0} (polling : Polling H) : Type 0 where
  pub get_law :
      (url : String) (h : H) → polling.monotonic h ≤ polling.monotonic (polling.get url h).1
  pub sleep_law :
      (interval : ℕ) (h : H)
      → polling.monotonic h + interval ≤ polling.monotonic (polling.sleep interval h)

module _ {H : Type 0} (polling : Polling H) where
  -- What a wait from `h` comes to: a request that was sent before the deadline was answered well, or
  -- the deadline has passed.
  pub data Waited (test : ℕ → Bool) (url : String) (exc : Exc) (deadline : ℕ)
      : Option (Result ⊤) × H → Type 0 where
    answered_well :
        (before : H)
        → polling.monotonic before < deadline
        → accepts test (polling.get url before).0 ≡ true
        → Waited test url exc deadline (some (ok tt), (polling.get url before).1)
    passed :
        (after : H)
        → deadline ≤ polling.monotonic after
        → Waited test url exc deadline (some (raise exc), after)

  past : (now deadline : ℕ) → deadline ≤ now → ltb now deadline ≡ false
  past now deadline h = ground arith

  before : (now deadline : ℕ) → ltb now deadline ≡ true → now < deadline
  before now deadline h = ground arith

  not_before : (now deadline : ℕ) → ltb now deadline ≡ false → deadline ≤ now
  not_before now deadline h = ground arith

  poll-Waited :
      PollingLaws polling
      → (test : ℕ → Bool) (url : String) (exc : Exc) (deadline interval n : ℕ) (h : H)
      → 0 < interval
      → deadline ≤ polling.monotonic h + n
      → Waited test url exc deadline (poll polling test url exc deadline interval (suc n) h)
  unfolding poll
  poll-Waited laws test url exc deadline interval zero h i f =
      rw (past (polling.monotonic h) deadline (omega (arith, f))) (passed h (omega (arith, f)))
  poll-Waited laws test url exc deadline interval (suc n) h i f =
      elim (Bool-cases (ltb (polling.monotonic h) deadline)) [
        | inr e ↦ rw e (passed h (not_before (polling.monotonic h) deadline e))
        | inl e ↦ rw e (elim (Bool-cases (accepts test (polling.get url h).0)) [
          | inl a ↦ rw a (answered_well h (before (polling.monotonic h) deadline e) a)
          | inr a ↦ rw a (
              let t = (polling.get url h).1 in
              poll-Waited laws test url exc deadline interval n (polling.sleep interval t) i
                (omega (arith, f, i, laws.get_law url h, laws.sleep_law interval t)))
        ])
      ]

  -- With a pause between the requests the wait for vLLM ends, within its number of rounds: it returns
  -- after a request that was sent before the deadline was answered with a status of success, and
  -- raises `vllm_not_ready` after the deadline, whatever exceptions the requests raise.
  pub wait_for_vllm_ready-Waited :
      PollingLaws polling
      → (timeout interval : ℕ) (h : H) → 0 < interval
      → Waited is_ready "/v1/models"
          (app vllm_not_ready)
          (polling.monotonic h + timeout)
          (wait_for_vllm_ready polling timeout interval h)
  unfolding wait_for_vllm_ready
  wait_for_vllm_ready-Waited laws timeout interval h i =
      poll-Waited laws is_ready "/v1/models" (app vllm_not_ready) (polling.monotonic h + timeout)
        interval timeout h i (omega arith)

  pub wait_for_http-Waited :
      PollingLaws polling
      → (url message : String) (timeout interval : ℕ) (h : H) → 0 < interval
      → Waited is_reachable url
          (other none message)
          (polling.monotonic h + timeout)
          (wait_for_http polling url message timeout interval h)
  unfolding wait_for_http
  wait_for_http-Waited laws url message timeout interval h i =
      poll-Waited laws is_reachable url (other none message) (polling.monotonic h + timeout)
        interval timeout h i (omega arith)
