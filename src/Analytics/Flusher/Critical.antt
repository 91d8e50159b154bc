-- ===== src/Analytics/Flusher/Critical.antt =====
-- The critical events of the whole run of a flusher
-- (backend/services/analytics/clickhouse_flusher.py).
use llm_inference_gpu_server.Common.{
  ℕ, suc, ◌≡◌, ◌∙◌, sym, ap, subst, ◌⊎◌, inl, inr, Bool, true, false, List, [], ◌∷◌,
}
use llm_inference_gpu_server.Errors.{pure, ◌>>◌}
use llm_inference_gpu_server.Errors.Ends.{Ends, Ends-pure, Ends-then, Ends-weaken}
use llm_inference_gpu_server.Analytics.Event.{AnalyticsEvent, is_critical, table, to_row}
use llm_inference_gpu_server.Analytics.Collector.{take_events, drain_batch, requeue_front}
use llm_inference_gpu_server.Analytics.Flusher.{
  ClickHouseInsertClient, ClickHouseFlusher, flush_events, flush_once, arrive, run_forever, stop,
}
use llm_inference_gpu_server.Analytics.Flusher.Rows.{In}
use llm_inference_gpu_server.Analytics.Flusher.Held.{
  Held, take_events-In, requeue_front-stays, requeue_front-Held, collect_all-stays,
  collect_all-Held,
}
use llm_inference_gpu_server.Analytics.Flusher.Delivery.{ClientLaws, Outcome, flush_events-Ends}

-- The event arrives in one of the pauses.
abbrev pub Arrives : AnalyticsEvent → List (List AnalyticsEvent) → Type 0
Arrives e [] = ⊥
Arrives e (events ∷ pauses) = In e events ⊎ Arrives e pauses

module _ {D : Type 0} {client : ClickHouseInsertClient D} (laws : ClientLaws client)
    (e : AnalyticsEvent) where
  -- The event waits, or was given to the spool, or has its row.
  abbrev pub Safe : ClickHouseFlusher × D → Type 0
  Safe w = Held e w.0.collector ⊎ In (to_row e) (laws.stored w.1 (table e))

  abbrev SafeAfter : ℕ → ClickHouseFlusher × D → Type 0
  SafeAfter n w = (w.0.max_retries ≡ suc n) × Safe w

  flushed-Safe :
      (events : List AnalyticsEvent) (f : ClickHouseFlusher) (d : D) (n : ℕ) (b : Bool)
      (w : ClickHouseFlusher × D)
      → is_critical e ≡ true
      → f.max_retries ≡ suc n
      → In e events ⊎ Safe (f, d)
      → Outcome laws events f d b w
      → SafeAfter n w
  flushed-Safe events f d n true w k m (inl h) (same, grows, delivered) =
      (ap (λ (g : ClickHouseFlusher). g.max_retries) same ∙ m, inr (delivered e h))
  flushed-Safe events f d n true w k m (inr (inl h)) (same, grows, delivered) = (
    ap (λ (g : ClickHouseFlusher). g.max_retries) same ∙ m,
    inl (subst (λ (g : ClickHouseFlusher). Held e g.collector) (sym same) h),
  )
  flushed-Safe events f d n true w k m (inr (inr h)) (same, grows, delivered) =
      (ap (λ (g : ClickHouseFlusher). g.max_retries) same ∙ m, inr (grows (table e) (to_row e) h))
  flushed-Safe events f d n false w k m h (same, grows) = (
    ap (λ (g : ClickHouseFlusher). g.max_retries) same ∙ m,
    elim h [
      | inl q ↦ inl (back (requeue_front-Held e events f.collector k q))
      | inr s ↦ elim s [
        | inl q ↦ inl (back (requeue_front-stays e events f.collector q))
        | inr q ↦ inr (grows (table e) (to_row e) q)
      ]
    ],
  )
    where
      back : Held e (requeue_front f.collector events) → Held e w.0.collector
      back q = subst (λ (g : ClickHouseFlusher). Held e g.collector) (sym same) q

  flush_once-Safe :
      (n : ℕ) (w : ClickHouseFlusher × D)
      → is_critical e ≡ true
      → SafeAfter n w
      → Ends (λ _ v. SafeAfter n v) (λ _ _. ⊥) (flush_once client w)
  unfolding flush_once drain_batch
  flush_once-Safe n (f, d) k (m, s) =
      let taken = take_events f.batch_size f.collector.queue in
      let g = record f { collector = record f.collector { queue = taken.1 } } in
      subst (λ r. Ends (λ _ v. SafeAfter n v) (λ _ _. ⊥) (flush_events client r taken.0 (g, d)))
        (sym m)
        (Ends-weaken (flush_events client (suc n) taken.0 (g, d))
          (flush_events-Ends laws taken.0 g d n)
          (λ b w o. flushed-Safe taken.0 g d n b w k m (found s) o) (λ _ _ no. no))
    where
      found :
          Safe (f, d)
          → let taken = take_events f.batch_size f.collector.queue in
            In e taken.0 ⊎ Safe (record f { collector = record f.collector { queue = taken.1 } }, d)
      found (inl (inl q)) = elim (take_events-In e f.batch_size f.collector.queue q) [
        | inl h ↦ inl h
        | inr h ↦ inr (inl (inl h))
      ]
      found (inl (inr q)) = inr (inl (inr q))
      found (inr q) = inr (inr q)

  Outcome-max_retries :
      (events : List AnalyticsEvent) (f : ClickHouseFlusher) (d : D) (b : Bool)
      (w : ClickHouseFlusher × D)
      → Outcome laws events f d b w
      → w.0.max_retries ≡ f.max_retries
  Outcome-max_retries events f d true w o = ap (λ (g : ClickHouseFlusher). g.max_retries) o.0
  Outcome-max_retries events f d false w o = ap (λ (g : ClickHouseFlusher). g.max_retries) o.0

  flush_once-max_retries :
      (n : ℕ) (w : ClickHouseFlusher × D)
      → w.0.max_retries ≡ suc n
      → Ends (λ _ v. v.0.max_retries ≡ suc n) (λ _ _. ⊥) (flush_once client w)
  unfolding flush_once drain_batch
  flush_once-max_retries n (f, d) m =
      let taken = take_events f.batch_size f.collector.queue in
      let g = record f { collector = record f.collector { queue = taken.1 } } in
      subst
        (λ r.
          Ends {S = ClickHouseFlusher × D} (λ _ v. v.0.max_retries ≡ suc n) (λ _ _. ⊥)
            (flush_events client r taken.0 (g, d)))
        (sym m)
        (Ends-weaken (flush_events client (suc n) taken.0 (g, d))
          (flush_events-Ends laws taken.0 g d n)
          (λ b w o. Outcome-max_retries taken.0 g d b w o ∙ m) (λ _ _ no. no))

  arrive-Safe :
      (events : List AnalyticsEvent) (w : ClickHouseFlusher × D) → Safe w → Safe (arrive events w).1
  unfolding arrive
  arrive-Safe events (f, d) (inl h) = inl (collect_all-stays e events f.collector h)
  arrive-Safe events (f, d) (inr h) = inr h

  -- Where the event is before the rounds `pauses`.
  abbrev Before : ℕ → List (List AnalyticsEvent) → ClickHouseFlusher × D → Type 0
  Before n pauses w = (w.0.max_retries ≡ suc n) × (Safe w ⊎ Arrives e pauses)

  arrive-Before :
      (n : ℕ) (events : List AnalyticsEvent) (pauses : List (List AnalyticsEvent))
      (w : ClickHouseFlusher × D)
      → is_critical e ≡ true
      → Before n (events ∷ pauses) w
      → Ends (λ _ v. Before n pauses v) (λ _ _. ⊥) (arrive events w)
  unfolding arrive
  arrive-Before n events pauses (f, d) k (m, inl h) = record {
    holds = (m, inl (arrive-Safe events (f, d) h));
  }
  arrive-Before n events pauses (f, d) k (m, inr (inl h)) = record {
    holds = (m, inl (inl (collect_all-Held e events f.collector k h)));
  }
  arrive-Before n events pauses (f, d) k (m, inr (inr h)) = record { holds = (m, inr h) }

  flush_once-Before :
      (n : ℕ) (pauses : List (List AnalyticsEvent)) (w : ClickHouseFlusher × D)
      → is_critical e ≡ true
      → Before n pauses w
      → Ends (λ _ v. Before n pauses v) (λ _ _. ⊥) (flush_once client w)
  flush_once-Before n pauses w k (m, inl h) =
      Ends-weaken (flush_once client w) (flush_once-Safe n w k (m, h)) (λ _ v g. (g.0, inl g.1))
        (λ _ _ no. no)
  flush_once-Before n pauses w k (m, inr h) =
      Ends-weaken (flush_once client w) (flush_once-max_retries n w m) (λ _ v g. (g, inr h))
        (λ _ _ no. no)

  run_forever-Safe :
      (n : ℕ) (pauses : List (List AnalyticsEvent)) (w : ClickHouseFlusher × D)
      → is_critical e ≡ true
      → Before n pauses w
      → Ends (λ _ v. SafeAfter n v) (λ _ _. ⊥) (run_forever client pauses w)
  unfolding run_forever
  run_forever-Safe n [] w k (m, h) =
      Ends-pure tt _ _ w (m, elim h [ inl s ↦ s | inr x ↦ absurd (x) ])
  run_forever-Safe n (events ∷ pauses) w k h =
      Ends-then (flush_once client >> arrive events) (run_forever client pauses) w
        (Ends-then (flush_once client) (arrive events) w
          (flush_once-Before n (events ∷ pauses) w k h)
          (λ _ v g. arrive-Before n events pauses v k g) (λ _ _ no. no))
        (λ _ v g. run_forever-Safe n pauses v k g) (λ _ _ no. no)

  -- A flusher that runs for any number of rounds and is then stopped never raises and loses no
  -- critical event, whatever ClickHouse does, if it makes an attempt at all: an event that waits at
  -- the start or arrives in a pause between two rounds has its row in its table in the end, or still
  -- waits, or was given to the spool.
  pub stop-run_forever-Safe :
      (n : ℕ) (pauses : List (List AnalyticsEvent)) (w : ClickHouseFlusher × D)
      → is_critical e ≡ true
      → w.0.max_retries ≡ suc n
      → Safe w ⊎ Arrives e pauses
      → Ends (λ _ v. Safe v) (λ _ _. ⊥) ((run_forever client pauses >> stop client) w)
  unfolding stop
  stop-run_forever-Safe n pauses w k m h =
      Ends-then (run_forever client pauses) (flush_once client >> pure tt) w
        (run_forever-Safe n pauses w k (m, h))
        (λ _ v g.
          Ends-then (flush_once client) (pure tt) v (flush_once-Safe n v k g)
            (λ _ u s. Ends-pure tt _ _ u s.1) (λ _ _ no. no))
        (λ _ _ no. no)
