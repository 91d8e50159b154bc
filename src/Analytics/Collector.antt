-- ===== src/Analytics/Collector.antt =====
-- `AnalyticsCollector` (backend/services/analytics/event_collector.py): a bounded queue of events.
pub mod Conserve
use llm_inference_gpu_server.Common.{
  ℕ, zero, suc, ◌+◌, Bool, true, false, List, [], ◌∷◌, ◌++◌, length, leb, if◌then◌else◌,
}
use llm_inference_gpu_server.Analytics.Event.{AnalyticsEvent, is_critical}

-- The events that wait, those for which a write to the spool was started, and the counters. As with
-- `asyncio.Queue`, a queue of size 0 has no bound.
pub record AnalyticsCollector : Type 0 where
  pub max_size : ℕ
  pub queue : List AnalyticsEvent
  pub spool : List AnalyticsEvent
  pub dropped_non_critical : ℕ
  pub spooled_critical : ℕ

-- `Queue.full`
unfoldable pub is_full : AnalyticsCollector → Bool
is_full c = bounded c.max_size
  where
    bounded : ℕ → Bool
    bounded zero = false
    bounded (suc n) = leb (suc n) (length c.queue)

abbrev queued_event : AnalyticsCollector → AnalyticsEvent → AnalyticsCollector
queued_event c event = record c { queue = c.queue ++ event ∷ [] }

-- `collect`: whether the event was queued.
unfoldable pub collect : AnalyticsCollector → AnalyticsEvent → Bool × AnalyticsCollector
collect c event =
    if is_full c
    then if is_critical event
      then (
        false,
        record c { spooled_critical = c.spooled_critical + 1; spool = c.spool ++ event ∷ [] },
      )
      else (false, record c { dropped_non_critical = c.dropped_non_critical + 1 })
    else (true, queued_event c event)

-- Calls of `collect` one after the other.
unfoldable pub collect_all : AnalyticsCollector → List AnalyticsEvent → AnalyticsCollector
collect_all c [] = c
collect_all c (event ∷ events) = collect_all (collect c event).1 events

-- `drain_batch`, the events taken first.
unfoldable pub take_events : ℕ → List AnalyticsEvent → List AnalyticsEvent × List AnalyticsEvent
take_events zero queue = ([], queue)
take_events (suc n) [] = ([], [])
take_events (suc n) (event ∷ queue) =
    let (events, rest) = take_events n queue in (event ∷ events, rest)

unfoldable pub drain_batch : AnalyticsCollector → ℕ → List AnalyticsEvent × AnalyticsCollector
drain_batch c batch_size =
    let (events, rest) = take_events batch_size c.queue in (events, record c { queue = rest })

-- One event of `requeue_front`.
unfoldable pub requeue : AnalyticsCollector → AnalyticsEvent → AnalyticsCollector
requeue c event =
    if is_full c
    then if is_critical event
      then record c { spool = c.spool ++ event ∷ [] }
      else record c { dropped_non_critical = c.dropped_non_critical + 1 }
    else queued_event c event

-- `requeue_front`
unfoldable pub requeue_front : AnalyticsCollector → List AnalyticsEvent → AnalyticsCollector
requeue_front c [] = c
requeue_front c (event ∷ events) = requeue_front (requeue c event) events
