-- ===== src/Vllm/Tests.antt =====
-- A stream that ends early (backend/services/vllm/stream.py).
use llm_inference_gpu_server.Common.{◌≡◌, List, [], ◌∷◌, ◌++◌, if◌then◌else◌}
use llm_inference_gpu_server.Text.{codes}
use llm_inference_gpu_server.Vllm.Stream.{
  Wait, line, timeout, ensure_done_event, stream_with_heartbeats, events_of, has_done,
  stripped_lines, lines_of, format_sse_data, ensure_done_event-stream_with_heartbeats,
}

abbrev waits : List Wait
waits = timeout ∷ line (codes "data: {}") ∷ line [] ∷ []

ensure_done_event-stream_with_heartbeats_example :
    ensure_done_event (stream_with_heartbeats waits)
    ≡ events_of waits
      ++ (if has_done (stripped_lines (lines_of waits))
          then []
          else format_sse_data (codes "[DONE]") ∷ [])
ensure_done_event-stream_with_heartbeats_example = ensure_done_event-stream_with_heartbeats waits
