-- ===== src/Vllm/Runtime/Tests.antt =====
-- A server that is up after a while (backend/services/vllm/runtime.py).
use llm_inference_gpu_server.Common.{ℕ, ◌+◌, arith, if◌then◌else◌, ltb}
use llm_inference_gpu_server.Errors.{app}
use llm_inference_gpu_server.Vllm.Client.{answered}
use llm_inference_gpu_server.Vllm.Runtime.{Polling, is_ready, vllm_not_ready, wait_for_vllm_ready}
use llm_inference_gpu_server.Vllm.Runtime.Waits.{PollingLaws, Waited, wait_for_vllm_ready-Waited}

-- The state is the time; the server is up from 5 on.
abbrev polling : Polling ℕ
polling = record {
  get = λ url now. (answered (if ltb now 5 then 503 else 200), now + 1);
  monotonic = λ now. now;
  sleep = λ n now. now + n;
}

polling_laws : PollingLaws polling
polling_laws = record { get_law = λ url now. omega arith; sleep_law = λ n now. omega arith }

wait_for_vllm_ready-Waited_example :
    Waited polling is_ready "/v1/models"
      (app vllm_not_ready)
      12
      (wait_for_vllm_ready polling 10 2 2)
wait_for_vllm_ready-Waited_example =
    wait_for_vllm_ready-Waited polling polling_laws 10 2 2 (omega arith)
