-- ===== src/Analytics/Flusher.antt =====
-- `ClickHouseFlusher` (backend/services/analytics/clickhouse_flusher.py): batches of events are
-- written to the tables of ClickHouse.
pub mod Rows
pub mod Delivery
pub mod Held
pub mod Critical
use llm_inference_gpu_server.Common.{
  ⊤, ℕ, zero, suc, ◌+◌, String, Bool, true, false, List, [], ◌∷◌, ◌++◌, if◌then◌else◌,
}
use llm_inference_gpu_server.Errors.{Exc, Action, ok, pure, throw, ◌>>=◌, ◌>>◌, try_except}
use llm_inference_gpu_server.Errors.Parts.{on_second}
use llm_inference_gpu_server.Analytics.Event.{
  AnalyticsTable, usage_events, inference_events, AnalyticsEvent, Cell, table, to_row,
  columns_for_table,
}
use llm_inference_gpu_server.Analytics.Collector.{
  AnalyticsCollector, collect_all, drain_batch, requeue_front,
}

abbrev pub Row : Type 0
Row = List Cell

-- `ClickHouseInsertClient`: its `insert`, over the state `D` of the tables.
abbrev pub ClickHouseInsertClient : Type 0 → Type 0
ClickHouseInsertClient D = AnalyticsTable → List Row → List String → Action D ⊤

abbrev pub same_table : AnalyticsTable → AnalyticsTable → Bool
same_table usage_events usage_events = true
same_table inference_events inference_events = true
same_table _ _ = false

abbrev pub Grouped : Type 0
Grouped = List (AnalyticsTable × List Row)

-- `grouped[table].append(row)`
unfoldable pub add_row : Grouped → AnalyticsTable → Row → Grouped
add_row [] t row = (t, row ∷ []) ∷ []
add_row ((u, rows) ∷ grouped) t row =
    let rest = add_row grouped t row in
    if same_table u t then (u, rows ++ row ∷ []) ∷ grouped else (u, rows) ∷ rest

-- The first loop of `_insert`.
unfoldable pub group : Grouped → List AnalyticsEvent → Grouped
group grouped [] = grouped
group grouped (e ∷ events) = group (add_row grouped (table e) (to_row e)) events

-- The settings `batch_size` and `max_retries`, the collector and the counter.
pub record ClickHouseFlusher : Type 0 where
  pub collector : AnalyticsCollector
  pub batch_size : ℕ
  pub max_retries : ℕ
  pub flush_failures : ℕ

-- Other tasks collect events while the flusher pauses.
unfoldable pub arrive : {D : Type 0} → List AnalyticsEvent → Action (ClickHouseFlusher × D) ⊤
arrive events (f, d) = (ok tt, (record f { collector = collect_all f.collector events }, d))

module _ {D : Type 0} (client : ClickHouseInsertClient D) where
  -- The second loop of `_insert`.
  unfoldable pub insert_groups : Grouped → Action D ⊤
  insert_groups [] = pure tt
  insert_groups ((t, rows) ∷ grouped) = client t rows (columns_for_table t) >> insert_groups grouped

  -- `_insert`
  unfoldable pub insert : List AnalyticsEvent → Action D ⊤
  insert events = insert_groups (group [] events)

  -- `_insert_with_retry`, for the attempts that are left. Without any, nothing is written.
  unfoldable pub insert_with_retry : ℕ → List AnalyticsEvent → Action D ⊤
  insert_with_retry zero events = pure tt
  insert_with_retry (suc zero) events = try_except (insert events) throw
  insert_with_retry (suc (suc n)) events =
      try_except (insert events) (λ _. insert_with_retry (suc n) events)

  -- The handler of `flush_once`.
  unfoldable pub flush_failed : List AnalyticsEvent → Action (ClickHouseFlusher × D) Bool
  flush_failed events (f, d) = (
    ok false,
    (
      record f {
        collector = requeue_front f.collector events;
        flush_failures = f.flush_failures + 1;
      },
      d,
    ),
  )

  unfoldable pub flush_events : ℕ → List AnalyticsEvent → Action (ClickHouseFlusher × D) Bool
  flush_events max_retries [] = pure true
  flush_events max_retries (e ∷ es) =
      try_except (on_second (insert_with_retry max_retries (e ∷ es)) >> pure true)
        (λ _. flush_failed (e ∷ es))

  -- `flush_once`
  unfoldable pub flush_once : Action (ClickHouseFlusher × D) Bool
  flush_once (f, d) =
      let (events, rest) = drain_batch f.collector f.batch_size in
      flush_events f.max_retries events (record f { collector = rest }, d)

  -- `run_forever` until it is stopped: its rounds, by the events that arrive in the pause of each.
  unfoldable pub run_forever : List (List AnalyticsEvent) → Action (ClickHouseFlusher × D) ⊤
  run_forever [] = pure tt
  run_forever (events ∷ pauses) = (flush_once >> arrive events) >> run_forever pauses

  -- `stop`, after the last round.
  unfoldable pub stop : Action (ClickHouseFlusher × D) ⊤
  stop = flush_once >> pure tt
