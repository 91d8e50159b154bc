-- ===== src/Vllm/Runtime.antt =====
-- The start of the server of vLLM (backend/services/vllm/runtime.py): its command, and the wait until
-- it answers, which backend/scripts/wait_for_http.py does in the same way.
pub mod Waits
mod Tests
use llm_inference_gpu_server.Common.{
  ⊤, ℕ, zero, suc, ◌+◌, String, Bool, true, false, ◌&&◌, Option, none, some, List, [], ◌∷◌, ◌++◌,
  if◌then◌else◌, ltb, leb, not, str_eq,
}
use llm_inference_gpu_server.Text.{decimal}
use llm_inference_gpu_server.Errors.{AppError, Exc, app, other, Result, ok, raise}
use llm_inference_gpu_server.Vllm.Client.{Reply, answered, timed_out, http_error, failed}

-- The settings of the command. A float is given as Python prints it.
pub record VllmSettings : Type 0 where
  pub vllm_model_path : String
  pub vllm_host : String
  pub vllm_port : ℕ
  pub vllm_served_model : String
  pub vllm_tensor_parallel_size : ℕ
  pub vllm_max_model_len : ℕ
  pub vllm_gpu_memory_utilization : String
  pub vllm_max_num_seqs : ℕ
  pub vllm_max_num_batched_tokens : ℕ
  pub vllm_enable_chunked_prefill : Bool
  pub vllm_kv_cache_dtype : Option String
  pub vllm_reasoning_parser : Option String
  pub vllm_trust_remote_code : Bool

-- `if flag: command.append(name)`
unfoldable pub when_set : Bool → String → List String
when_set true name = name ∷ []
when_set false name = []

-- `if value: command.extend([name, value])`
unfoldable pub when_given : String → Option String → List String
when_given name none = []
when_given name (some value) = if str_eq value "" then [] else name ∷ value ∷ []

-- `build_vllm_serve_command`
unfoldable pub build_vllm_serve_command : VllmSettings → List String
build_vllm_serve_command settings =
    ("vllm"
      ∷ "serve"
      ∷ settings.vllm_model_path
      ∷ "--host"
      ∷ settings.vllm_host
      ∷ "--port"
      ∷ decimal settings.vllm_port
      ∷ "--served-model-name"
      ∷ settings.vllm_served_model
      ∷ "--tensor-parallel-size"
      ∷ decimal settings.vllm_tensor_parallel_size
      ∷ "--max-model-len"
      ∷ decimal settings.vllm_max_model_len
      ∷ "--gpu-memory-utilization"
      ∷ settings.vllm_gpu_memory_utilization
      ∷ "--max-num-seqs"
      ∷ decimal settings.vllm_max_num_seqs
      ∷ "--max-num-batched-tokens"
      ∷ decimal settings.vllm_max_num_batched_tokens
      ∷ [])
    ++ when_set settings.vllm_enable_chunked_prefill "--enable-chunked-prefill"
    ++ when_given "--kv-cache-dtype" settings.vllm_kv_cache_dtype
    ++ when_given "--reasoning-parser" settings.vllm_reasoning_parser
    ++ when_set settings.vllm_trust_remote_code "--trust-remote-code"

abbrev pub vllm_not_ready : AppError
vllm_not_ready = record {
  message = "vLLM did not become ready before the startup timeout";
  code = "vllm_not_ready";
  status_code = 503;
  error_type = "server_error";
  param = none;
}

-- A server that is asked for its status, the clock, and `asyncio.sleep`. A time is a number of
-- microseconds.
pub record Polling (H : Type 0) : Type 0 where
  pub get : String → H → Reply ℕ × H
  pub monotonic : H → ℕ
  pub sleep : ℕ → H → H

-- `raise_for_status()` passes the statuses of success.
unfoldable pub is_ready : ℕ → Bool
is_ready status_code = leb 200 status_code && ltb status_code 300

-- `200 <= response.status_code < 500`
unfoldable pub is_reachable : ℕ → Bool
is_reachable status_code = leb 200 status_code && ltb status_code 500

-- Any exception of the request is noted and passed over.
unfoldable pub accepts : (ℕ → Bool) → Reply ℕ → Bool
accepts test (answered status_code) = test status_code
accepts test timed_out = false
accepts test http_error = false
accepts test (failed e) = false

module _ {H : Type 0} (polling : Polling H) where
  -- The loop, on fuel for its rounds: `none` when the fuel is used up.
  unfoldable pub poll : (ℕ → Bool) → String → Exc → ℕ → ℕ → ℕ → H → Option (Result ⊤) × H
  poll test url exc deadline interval zero h = (none, h)
  poll test url exc deadline interval (suc fuel) h =
      let (reply, t) = polling.get url h in
      let rest = poll test url exc deadline interval fuel (polling.sleep interval t) in
      if ltb (polling.monotonic h) deadline
      then if accepts test reply then (some (ok tt), t) else rest
      else (some (raise exc), h)

  -- `wait_for_vllm_ready`
  unfoldable pub wait_for_vllm_ready : ℕ → ℕ → H → Option (Result ⊤) × H
  wait_for_vllm_ready timeout interval h =
      poll is_ready "/v1/models" (app vllm_not_ready) (polling.monotonic h + timeout) interval
        (suc timeout) h

  -- `wait_for_http`, with the text of its `TimeoutError`.
  unfoldable pub wait_for_http : String → String → ℕ → ℕ → H → Option (Result ⊤) × H
  wait_for_http url message timeout interval h =
      poll is_reachable url (other none message) (polling.monotonic h + timeout) interval
        (suc timeout) h
