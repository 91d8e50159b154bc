-- ===== src/Batch/Worker/Tests.antt =====
-- A run of the worker with an engine that fails (backend/services/batch/batch_worker.py).
use llm_inference_gpu_server.Common.{⊤, ℕ, ◌+◌, ◌≡◌, refl, true, false, none, [], ◌∷◌, drop, arith}
use llm_inference_gpu_server.Common.Int.{pos}
use llm_inference_gpu_server.Errors.{Exc, other, ok, raise, pure}
use llm_inference_gpu_server.Errors.Ends.{Ends}
use llm_inference_gpu_server.Text.{codes}
use llm_inference_gpu_server.Json.{end}
use llm_inference_gpu_server.Auth.{AuthContext}
use llm_inference_gpu_server.Inference.Chat.{plain}
use llm_inference_gpu_server.Inference.Tokens.{count_text}
use llm_inference_gpu_server.Inference.Ports.{Ports, PortsLaws, Quiet}
use llm_inference_gpu_server.Batch.Job.{new_job}
use llm_inference_gpu_server.Batch.Status.{succeeded}
use llm_inference_gpu_server.Batch.Store.Memory.{Jobs, in_memory_store}
use llm_inference_gpu_server.Batch.Queue.Memory.{
  InMemoryBatchQueue, in_memory_queue, in_memory_queue_laws,
}
use llm_inference_gpu_server.Batch.Worker.{WorkerSettings, asked, process_one}
use llm_inference_gpu_server.Batch.Worker.Drain.{rounds, rounds-Drained}
use llm_inference_gpu_server.Batch.Worker.Settled.{Settled, process_one-Settled}

-- The counts of the two calls.
record Counts : Type 0 where
  admitted : ℕ
  released : ℕ

abbrev unavailable : Exc
unavailable = other none "unavailable"

abbrev failing_ports : Ports Counts ⊤
failing_ports = record {
  admit = λ auth_context tokens c. (ok tt, record c { admitted = c.admitted + 1 });
  finalize_tokens = λ lease tokens release_all c. (ok tt, c);
  release = λ lease c. (ok tt, record c { released = c.released + 1 });
  start_audit = λ audit c. (raise unavailable, c);
  finalize_audit = λ final c. (ok tt, c);
  create_chat_completion = λ payload c. (raise unavailable, c);
  collect = λ event c. (ok false, c);
  elapsed_ms = λ c. (ok (pos 7), c);
  utc_now = λ c. (ok (pos 0), c);
}

abbrev failing_laws : PortsLaws failing_ports
failing_laws = record {
  admits = λ c. c.admitted;
  releases = λ c. c.released;
  admit_law = λ auth_context tokens c. record { holds = (refl, refl) };
  release_law = λ lease c. record { holds = (refl, refl) };
  finalize_tokens_law =
      λ lease tokens release_all. record { ends = λ c. record { holds = (refl, refl) } };
  start_audit_law = λ audit. record { ends = λ c. record { holds = (refl, refl) } };
  finalize_audit_law = λ final. record { ends = λ c. record { holds = (refl, refl) } };
  create_chat_completion_law = λ payload. record { ends = λ c. record { holds = (refl, refl) } };
  collect_law = λ event. record { ends = λ c. record { holds = (refl, refl) } };
  elapsed_ms_law = record { ends = λ c. record { holds = (refl, refl) } };
  utc_now_law = record { ends = λ c. record { holds = (refl, refl) } };
}

abbrev settings : WorkerSettings
settings = record {
  token_estimator = count_text;
  limits = record {
    max_input_tokens = pos 600;
    max_output_tokens = pos 64;
    max_total_tokens = pos 640;
  };
  chat_request_from_batch = λ job. ok (record {
    model = job.model;
    messages = record { role = codes "user"; content = plain (codes "hello") } ∷ [];
    stream = false;
    max_tokens = none;
  });
  dump = λ request. end;
  hashing = record { sha256_hex = λ t. "digest"; dump_parts = λ ps. [] };
  has_collector = true;
}

abbrev owner : AuthContext
owner = record {
  api_key_id = "key_1";
  user_id = "user_1";
  project_id = "project_1";
  allowed_models = none;
}

abbrev before : (Jobs × InMemoryBatchQueue) × Counts
before = (
  (
    ("job_1", new_job "job_1" owner end "qwen") ∷ [],
    record { job_ids = "job_1" ∷ []; fail_enqueue = false },
  ),
  record { admitted = 0; released = 0 },
)

always : Quiet failing_laws.admits failing_laws.releases (asked none)
unfolding pure
always = record { ends = λ c. record { holds = (refl, refl) } }

process_one-Settled_example :
    Ends {S = (Jobs × InMemoryBatchQueue) × Counts}
      (λ _ v. Settled failing_laws before.1 v.1)
      (λ _ v. Settled failing_laws before.1 v.1)
      (process_one in_memory_store failing_ports settings in_memory_queue "req_1" none before)
process_one-Settled_example =
    process_one-Settled failing_laws in_memory_store settings in_memory_queue "req_1" none always
      before

-- The job was run before.
abbrev finished : (Jobs × InMemoryBatchQueue) × Counts
finished = (
  (
    ("job_1", record (new_job "job_1" owner end "qwen") { status = succeeded }) ∷ [],
    record { job_ids = "job_1" ∷ []; fail_enqueue = false },
  ),
  record { admitted = 0; released = 0 },
)

rounds-Drained_example :
    Ends {S = (Jobs × InMemoryBatchQueue) × Counts}
      (λ _ v. v.0.1.job_ids ≡ [])
      (λ _ v. (n : ℕ) × (v.0.1.job_ids ≡ drop n ("job_1" ∷ [])))
      (rounds in_memory_store failing_ports settings in_memory_queue_laws 2 (λ n. "req_1") before)
rounds-Drained_example =
    rounds-Drained in_memory_store failing_ports settings in_memory_queue_laws 2 (λ n. "req_1")
      before (omega arith)
