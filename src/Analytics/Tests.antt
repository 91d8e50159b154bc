-- ===== src/Analytics/Tests.antt =====
-- Runs of the analytics pipeline (backend/services/analytics).
use llm_inference_gpu_server.Common.{refl, inl, inr, Bool, true, false, none, List, [], ◌∷◌, ◌++◌}
use llm_inference_gpu_server.Common.Int.{pos}
use llm_inference_gpu_server.Errors.{ok, ◌>>◌}
use llm_inference_gpu_server.Errors.Ends.{Ends}
use llm_inference_gpu_server.Analytics.Event.{
  AnalyticsTable, usage_events, inference_events, AnalyticsEvent, inference, is_critical,
  columns_for_table,
}
use llm_inference_gpu_server.Analytics.Collector.{AnalyticsCollector}
use llm_inference_gpu_server.Analytics.Collector.Conserve.{Op, offer, take_batch, give_back}
use llm_inference_gpu_server.Analytics.Flusher.{
  Row, ClickHouseInsertClient, ClickHouseFlusher, flush_once, run_forever, stop,
}
use llm_inference_gpu_server.Analytics.Flusher.Critical.{Safe, stop-run_forever-Safe}
use llm_inference_gpu_server.Analytics.Flusher.Rows.{In, here, In-left, In-right, Fits}
use llm_inference_gpu_server.Analytics.Flusher.Delivery.{
  Grows, ClientLaws, Flushed, flush_once-Flushed,
}

abbrev event : Bool → AnalyticsEvent
event critical = inference (record {
  event_time = pos 0;
  request_id = "req_1";
  event_type = "ttft";
  user_id = "user_1";
  project_id = "project_1";
  api_key_id = "key_1";
  model = "qwen";
  status = "completed";
  latency_ms = none;
  error_code = none;
  critical = critical;
})

abbrev collector : AnalyticsCollector
collector = record {
  max_size = 1;
  queue = event false ∷ [];
  spool = [];
  dropped_non_critical = 0;
  spooled_critical = 0;
}

abbrev ops : List Op
ops = offer (event true) ∷ offer (event false) ∷ take_batch 5 ∷ give_back (event false ∷ []) ∷ []

-- Two tables that take every row.
record Tables : Type 0 where
  usage_rows : List Row
  inference_rows : List Row

rows_of : Tables → AnalyticsTable → List Row
rows_of d usage_events = d.usage_rows
rows_of d inference_events = d.inference_rows

tables : ClickHouseInsertClient Tables
tables usage_events rows columns d = (ok tt, record d { usage_rows = d.usage_rows ++ rows })
tables inference_events rows columns d =
    (ok tt, record d { inference_rows = d.inference_rows ++ rows })

tables_law :
    (t : AnalyticsTable) (rows : List Row) (d : Tables)
    → Fits t rows
    → Ends
        (λ _ e. Grows rows_of d e × ((row : Row) → In row rows → In row (rows_of e t)))
        (λ _ e. Grows rows_of d e)
        (tables t rows (columns_for_table t) d)
unfolding tables rows_of
tables_law usage_events rows d fit = record { holds = (kept, λ row m. In-right d.usage_rows m) }
  where
    kept : Grows rows_of d (record d { usage_rows = d.usage_rows ++ rows })
    kept usage_events row m = In-left rows m
    kept inference_events row m = m
tables_law inference_events rows d fit = record {
  holds = (kept, λ row m. In-right d.inference_rows m);
}
  where
    kept : Grows rows_of d (record d { inference_rows = d.inference_rows ++ rows })
    kept usage_events row m = m
    kept inference_events row m = In-left rows m

abbrev tables_laws : ClientLaws tables
tables_laws = record { stored = rows_of; insert_law = tables_law }

abbrev no_rows : Tables
no_rows = record { usage_rows = []; inference_rows = [] }

abbrev flusher : ClickHouseFlusher
flusher = record { collector = collector; batch_size = 500; max_retries = 3; flush_failures = 0 }

flush_once-Flushed_example :
    Ends {S = ClickHouseFlusher × Tables}
      (λ b w. Flushed tables_laws flusher no_rows b w)
      (λ _ _. ⊥)
      (flush_once tables (flusher, no_rows))
flush_once-Flushed_example = flush_once-Flushed tables_laws flusher no_rows 2 refl

-- A critical event waits, and another arrives in the second pause.
abbrev pauses : List (List AnalyticsEvent)
pauses = [] ∷ (event true ∷ event false ∷ []) ∷ []

stop-run_forever-Safe_example :
    Ends {S = ClickHouseFlusher × Tables}
      (λ _ v. Safe tables_laws (event true) v)
      (λ _ _. ⊥)
      ((run_forever tables pauses >> stop tables) (flusher, no_rows))
unfolding is_critical
stop-run_forever-Safe_example =
    stop-run_forever-Safe tables_laws (event true) 2 pauses (flusher, no_rows) refl refl
      (inr (inr (inl here)))
