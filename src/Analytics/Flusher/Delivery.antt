-- ===== src/Analytics/Flusher/Delivery.antt =====
-- A batch is written, or its events wait again (backend/services/analytics/clickhouse_flusher.py).
use llm_inference_gpu_server.Common.{
  ℕ, zero, suc, ◌+◌, ◌≡◌, refl, sym, subst, Bool, true, false, List, [], ◌∷◌,
}
use llm_inference_gpu_server.Errors.{pure, throw, ◌>>◌}
use llm_inference_gpu_server.Errors.Ends.{
  Ends, Ends-pure, Ends-throw, Ends-then, Ends-weaken, Ends-try_except,
}
use llm_inference_gpu_server.Errors.Parts.{on_second, Ends-on_second}
use llm_inference_gpu_server.Analytics.Event.{
  AnalyticsTable, AnalyticsEvent, table, to_row, columns_for_table,
}
use llm_inference_gpu_server.Analytics.Collector.{AnalyticsCollector, drain_batch, requeue_front}
use llm_inference_gpu_server.Analytics.Collector.Conserve.{Kept, requeue_front-drain_batch}
use llm_inference_gpu_server.Analytics.Flusher.{
  Row, ClickHouseInsertClient, Grouped, group, insert_groups, insert, insert_with_retry,
  ClickHouseFlusher, flush_failed, flush_events, flush_once,
}
use llm_inference_gpu_server.Analytics.Flusher.Rows.{
  In, InGroups, here_group, later_group, Fits, AllFit, group-InGroups, group-AllFit,
}

module _ {D : Type 0} where
  -- No row is lost.
  abbrev pub Grows : (D → AnalyticsTable → List Row) → D → D → Type 0
  Grows stored d e = (t : AnalyticsTable) (row : Row) → In row (stored d t) → In row (stored e t)

-- `insert` on rows that fit the columns: the rows are stored when it returns, and whatever happens
-- those that were there stay.
pub record ClientLaws {D : Type 0} (client : ClickHouseInsertClient D) : Type 0 where
  pub stored : D → AnalyticsTable → List Row
  pub insert_law :
      (t : AnalyticsTable) (rows : List Row) (d : D)
      → Fits t rows
      → Ends
          (λ _ e. Grows stored d e × ((row : Row) → In row rows → In row (stored e t)))
          (λ _ e. Grows stored d e)
          (client t rows (columns_for_table t) d)

module _ {D : Type 0} {client : ClickHouseInsertClient D} (laws : ClientLaws client) where
  insert_groups-Ends :
      (g : Grouped) (d : D)
      → AllFit g
      → Ends
          (λ _ e.
            Grows laws.stored d e
            × ((t : AnalyticsTable) (row : Row) → InGroups t row g → In row (laws.stored e t)))
          (λ _ e. Grows laws.stored d e)
          (insert_groups client g d)
  unfolding insert_groups
  insert_groups-Ends [] d fit = Ends-pure tt _ _ d (λ t row h. h, λ t row h. elim h [ ])
  insert_groups-Ends ((u, rows) ∷ g) d fit =
      Ends-then (client u rows (columns_for_table u)) (insert_groups client g) d
        (laws.insert_law u rows d fit.0)
        (λ _ e h.
          Ends-weaken (insert_groups client g e) (insert_groups-Ends g e fit.1)
            (λ _ v k. (λ t row m. k.0 t row (h.0 t row m), λ t row m. placed e v h k t row m))
            (λ _ v k t row m. k t row (h.0 t row m)))
        (λ _ _ h. h)
    where
      placed :
          (e v : D)
          → Grows laws.stored d e × ((row : Row) → In row rows → In row (laws.stored e u))
          → Grows laws.stored e v
            × ((t : AnalyticsTable) (row : Row) → InGroups t row g → In row (laws.stored v t))
          → (t : AnalyticsTable) (row : Row) → InGroups t row ((u, rows) ∷ g)
          → In row (laws.stored v t)
      placed e v h k t row (here_group m) = k.0 t row (h.1 row m)
      placed e v h k t row (later_group m) = k.1 t row m

  -- Each of these events has its row in its table.
  abbrev pub Delivered : List AnalyticsEvent → D → Type 0
  Delivered events d = (e : AnalyticsEvent) → In e events → In (to_row e) (laws.stored d (table e))

  insert-Ends :
      (events : List AnalyticsEvent) (d : D)
      → Ends
          (λ _ e. Grows laws.stored d e × Delivered events e)
          (λ _ e. Grows laws.stored d e)
          (insert client events d)
  unfolding insert
  insert-Ends events d =
      Ends-weaken (insert_groups client (group [] events) d)
        (insert_groups-Ends (group [] events) d (group-AllFit [] events tt))
        (λ _ v h. (h.0, λ e m. h.1 (table e) (to_row e) (group-InGroups [] events e m)))
        (λ _ v h. h)

  insert_with_retry-Ends :
      (n : ℕ) (events : List AnalyticsEvent) (d : D)
      → Ends
          (λ _ e. Grows laws.stored d e × Delivered events e)
          (λ _ e. Grows laws.stored d e)
          (insert_with_retry client (suc n) events d)
  unfolding insert_with_retry
  insert_with_retry-Ends zero events d =
      Ends-try_except (insert client events) throw d (insert-Ends events d)
        (λ exc e h. Ends-throw exc _ _ e h)
  insert_with_retry-Ends (suc n) events d =
      Ends-try_except (insert client events) _ d (insert-Ends events d) (λ exc e h.
        Ends-weaken (insert_with_retry client (suc n) events e) (insert_with_retry-Ends n events e)
          (λ _ v k. (λ t row m. k.0 t row (h t row m), k.1)) (λ _ v k t row m. k t row (h t row m)))

  -- How `flush_events` ends, from the flusher `f` that the batch was taken from.
  abbrev pub Outcome :
      List AnalyticsEvent → ClickHouseFlusher → D → Bool → ClickHouseFlusher × D → Type 0
  Outcome events f d true w = (w.0 ≡ f) × Grows laws.stored d w.1 × Delivered events w.1
  Outcome events f d false w =
      (w.0 ≡ record f {
        collector = requeue_front f.collector events;
        flush_failures = f.flush_failures + 1;
      })
      × Grows laws.stored d w.1

  pub flush_events-Ends :
      (events : List AnalyticsEvent) (f : ClickHouseFlusher) (d : D) (n : ℕ)
      → Ends {S = ClickHouseFlusher × D}
          (λ b w. Outcome events f d b w)
          (λ _ _. ⊥)
          (flush_events client (suc n) events (f, d))
  unfolding flush_events flush_failed
  flush_events-Ends [] f d n = Ends-pure true _ _ (f, d) (refl, λ t row h. h, λ e m. elim m [ ])
  flush_events-Ends (e ∷ es) f d n =
      Ends-try_except (on_second (insert_with_retry client (suc n) (e ∷ es)) >> pure true) _ (f, d)
        (Ends-then (on_second (insert_with_retry client (suc n) (e ∷ es))) (pure true) (f, d)
          (Ends-on_second (insert_with_retry client (suc n) (e ∷ es)) f d
            (insert_with_retry-Ends n (e ∷ es) d))
          (λ _ w h. Ends-pure true _ _ w (h.1, h.0.0, h.0.1)) (λ _ _ h. h))
        (λ _ w h. record { holds = (rw h.1 refl, h.0) })

  module _ (f : ClickHouseFlusher) (d : D) where
    abbrev pub batch : List AnalyticsEvent
    batch = (drain_batch f.collector f.batch_size).0

    abbrev pub left : AnalyticsCollector
    left = (drain_batch f.collector f.batch_size).1

    -- The batch is written, or its events are given back and the failure is counted.
    abbrev pub Flushed : Bool → ClickHouseFlusher × D → Type 0
    Flushed true w =
        (w.0.collector ≡ left)
        × (w.0.flush_failures ≡ f.flush_failures)
        × Grows laws.stored d w.1
        × Delivered batch w.1
    Flushed false w =
        (w.0.collector ≡ requeue_front left batch)
        × (w.0.flush_failures ≡ f.flush_failures + 1)
        × Grows laws.stored d w.1
        × Kept [] [] f.collector w.0.collector

    pub flush_once-Flushed :
        (n : ℕ)
        → f.max_retries ≡ suc n
        → Ends (λ b w. Flushed b w) (λ _ _. ⊥) (flush_once client (f, d))
    unfolding flush_once
    flush_once-Flushed n h =
        subst
          (λ r.
            Ends {S = ClickHouseFlusher × D} (λ b w. Flushed b w) (λ _ _. ⊥)
              (flush_events client r batch (record f { collector = left }, d)))
          (sym h)
          (Ends-weaken (flush_events client (suc n) batch (record f { collector = left }, d))
            (flush_events-Ends batch (record f { collector = left }) d n) (λ b w k. outcome b w k)
            (λ _ _ no. no))
      where
        outcome :
            (b : Bool) (w : ClickHouseFlusher × D)
            → Outcome batch (record f { collector = left }) d b w
            → Flushed b w
        outcome true w k = (rw k.0 refl, rw k.0 refl, k.1, k.2)
        outcome false w k = (
          rw k.0 refl,
          rw k.0 refl,
          k.1,
          rw k.0 (requeue_front-drain_batch f.collector f.batch_size),
        )
