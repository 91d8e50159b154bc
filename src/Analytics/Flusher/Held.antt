-- ===== src/Analytics/Flusher/Held.antt =====
-- Critical events in a collector
-- (backend/services/analytics/clickhouse_flusher.py, backend/services/analytics/event_collector.py).
use llm_inference_gpu_server.Common.{
  ℕ, zero, suc, ◌≡◌, ◌⊎◌, inl, inr, true, List, [], ◌∷◌, Bool-cases,
}
use llm_inference_gpu_server.Analytics.Event.{AnalyticsEvent, is_critical}
use llm_inference_gpu_server.Analytics.Collector.{
  AnalyticsCollector, is_full, collect, take_events, requeue, requeue_front, collect_all,
}
use llm_inference_gpu_server.Analytics.Flusher.Rows.{In, here, later, In-left, In-right}

-- The event waits, or was given to the spool.
abbrev pub Held : AnalyticsEvent → AnalyticsCollector → Type 0
Held e c = In e c.queue ⊎ In e c.spool

module _ (e : AnalyticsEvent) where
  collect-stays : (c : AnalyticsCollector) (x : AnalyticsEvent) → Held e c → Held e (collect c x).1
  unfolding collect
  collect-stays c x h = elim (Bool-cases (is_full c)) [
    | inl f ↦ elim (Bool-cases (is_critical x)) [
      | inl k ↦ simp (f, k) (elim h [ inl q ↦ inl q | inr s ↦ inr (In-left (x ∷ []) s) ])
      | inr k ↦ simp (f, k) h
    ]
    | inr f ↦ simp f (elim h [ inl q ↦ inl (In-left (x ∷ []) q) | inr s ↦ inr s ])
  ]

  collect-Held : (c : AnalyticsCollector) → is_critical e ≡ true → Held e (collect c e).1
  unfolding collect
  collect-Held c k = elim (Bool-cases (is_full c)) [
    | inl f ↦ simp (f, k) (inr (In-right c.spool here))
    | inr f ↦ simp f (inl (In-right c.queue here))
  ]

  requeue-stays : (c : AnalyticsCollector) (x : AnalyticsEvent) → Held e c → Held e (requeue c x)
  unfolding requeue
  requeue-stays c x h = elim (Bool-cases (is_full c)) [
    | inl f ↦ elim (Bool-cases (is_critical x)) [
      | inl k ↦ simp (f, k) (elim h [ inl q ↦ inl q | inr s ↦ inr (In-left (x ∷ []) s) ])
      | inr k ↦ simp (f, k) h
    ]
    | inr f ↦ simp f (elim h [ inl q ↦ inl (In-left (x ∷ []) q) | inr s ↦ inr s ])
  ]

  requeue-Held : (c : AnalyticsCollector) → is_critical e ≡ true → Held e (requeue c e)
  unfolding requeue
  requeue-Held c k = elim (Bool-cases (is_full c)) [
    | inl f ↦ simp (f, k) (inr (In-right c.spool here))
    | inr f ↦ simp f (inl (In-right c.queue here))
  ]

  pub requeue_front-stays :
      (events : List AnalyticsEvent) (c : AnalyticsCollector)
      → Held e c
      → Held e (requeue_front c events)
  unfolding requeue_front
  requeue_front-stays [] c h = h
  requeue_front-stays (x ∷ events) c h =
      requeue_front-stays events (requeue c x) (requeue-stays c x h)

  pub requeue_front-Held :
      (events : List AnalyticsEvent) (c : AnalyticsCollector)
      → is_critical e ≡ true
      → In e events
      → Held e (requeue_front c events)
  unfolding requeue_front
  requeue_front-Held [] c k m = elim m [ ]
  requeue_front-Held (x ∷ events) c k here =
      requeue_front-stays events (requeue c e) (requeue-Held c k)
  requeue_front-Held (x ∷ events) c k (later m) = requeue_front-Held events (requeue c x) k m

  pub collect_all-stays :
      (events : List AnalyticsEvent) (c : AnalyticsCollector)
      → Held e c
      → Held e (collect_all c events)
  unfolding collect_all
  collect_all-stays [] c h = h
  collect_all-stays (x ∷ events) c h =
      collect_all-stays events (collect c x).1 (collect-stays c x h)

  pub collect_all-Held :
      (events : List AnalyticsEvent) (c : AnalyticsCollector)
      → is_critical e ≡ true
      → In e events
      → Held e (collect_all c events)
  unfolding collect_all
  collect_all-Held [] c k m = elim m [ ]
  collect_all-Held (x ∷ events) c k here =
      collect_all-stays events (collect c e).1 (collect-Held c k)
  collect_all-Held (x ∷ events) c k (later m) = collect_all-Held events (collect c x).1 k m

  pub take_events-In :
      (n : ℕ) (queue : List AnalyticsEvent)
      → In e queue
      → In e (take_events n queue).0 ⊎ In e (take_events n queue).1
  unfolding take_events
  take_events-In zero queue h = inr h
  take_events-In (suc n) [] h = elim h [ ]
  take_events-In (suc n) (x ∷ queue) here = inl here
  take_events-In (suc n) (x ∷ queue) (later m) = elim (take_events-In n queue m) [
    | inl q ↦ inl (later q)
    | inr q ↦ inr q
  ]
