-- ===== src/Vllm/Client/Streamed.antt =====
-- A streamed chat completion from the lines of vLLM to the events of the gateway
-- (backend/services/vllm/client.py, backend/services/vllm/stream.py).
use llm_inference_gpu_server.Common.{List, [], ◌∷◌, ◌++◌, map, if◌then◌else◌}
use llm_inference_gpu_server.Text.{Text, codes}
use llm_inference_gpu_server.Vllm.Stream.{stripped_lines, has_done, to_event, format_sse_data}

abbrev pub events_of_lines : List Text → List Text
events_of_lines lines =
    map to_event (stripped_lines lines)
    ++ (if has_done (stripped_lines lines) then [] else format_sse_data (codes "[DONE]") ∷ [])
