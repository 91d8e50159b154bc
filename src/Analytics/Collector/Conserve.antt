-- ===== src/Analytics/Collector/Conserve.antt =====
-- No event gets lost uncounted, no critical event gets lost, and the queue keeps its bound
-- (backend/services/analytics/event_collector.py).
use llm_inference_gpu_server.Common.{
  ℕ, zero, suc, ◌+◌, ◌≤◌, ◌≡◌, refl, ◌∙◌, ap, ◌⊎◌, inl, inr, false, List, [], ◌∷◌, ◌++◌, length,
  length-append, if◌then◌else◌, Bool-cases, arith,
}
use llm_inference_gpu_server.Analytics.Event.{AnalyticsEvent, is_critical}
use llm_inference_gpu_server.Analytics.Collector.{
  AnalyticsCollector, is_full, collect, take_events, drain_batch, requeue, requeue_front,
}

-- The critical ones among some events.
abbrev pub criticals : List AnalyticsEvent → ℕ
criticals [] = 0
criticals (e ∷ es) = (if is_critical e then 1 else 0) + criticals es

criticals-append :
    (xs ys : List AnalyticsEvent) → criticals (xs ++ ys) ≡ criticals xs + criticals ys
criticals-append [] ys = omega arith
criticals-append (x ∷ xs) ys = omega (arith, criticals-append xs ys)

-- What has become of the events that were given to the collector and not taken again.
abbrev pub accounted : AnalyticsCollector → ℕ
accounted c = length c.queue + length c.spool + c.dropped_non_critical

abbrev pub criticals_held : AnalyticsCollector → ℕ
criticals_held c = criticals c.queue + criticals c.spool

abbrev pub WithinSize : AnalyticsCollector → Type 0
WithinSize c = (c.max_size ≡ 0) ⊎ (length c.queue ≤ c.max_size)

-- The queue, the counters and the spool of `d` are those of `c` with `events` added and `taken`
-- taken out.
pub record Kept (events taken : List AnalyticsEvent) (c d : AnalyticsCollector) : Type 0 where
  pub same_size : d.max_size ≡ c.max_size
  pub all_kept : length taken + accounted d ≡ accounted c + length events
  pub criticals_kept : criticals taken + criticals_held d ≡ criticals_held c + criticals events
  pub size_kept : WithinSize c → WithinSize d

Kept-refl : (c : AnalyticsCollector) → Kept [] [] c c
Kept-refl c = record {
  same_size = refl;
  all_kept = omega arith;
  criticals_kept = omega arith;
  size_kept = λ h. h;
}

module _ (c : AnalyticsCollector) (e : AnalyticsEvent) where
  has_room : is_full c ≡ false → (c.max_size ≡ 0) ⊎ (suc (length c.queue) ≤ c.max_size)
  unfolding is_full
  has_room h = ground arith

  Kept-queued : is_full c ≡ false → Kept (e ∷ []) [] c (record c { queue = c.queue ++ e ∷ [] })
  Kept-queued h = record {
    same_size = refl;
    all_kept = omega (arith, length-append c.queue (e ∷ []));
    criticals_kept = omega (arith, criticals-append c.queue (e ∷ []));
    size_kept = λ _. elim (has_room h) [
      | inl z ↦ inl z
      | inr room ↦ inr (omega (arith, room, length-append c.queue (e ∷ [])))
    ];
  }

  Kept-spooled :
      (n : ℕ) → Kept (e ∷ []) [] c (record c { spooled_critical = n; spool = c.spool ++ e ∷ [] })
  Kept-spooled n = record {
    same_size = refl;
    all_kept = omega (arith, length-append c.spool (e ∷ []));
    criticals_kept = omega (arith, criticals-append c.spool (e ∷ []));
    size_kept = λ h. h;
  }

  Kept-dropped :
      is_critical e ≡ false
      → Kept (e ∷ []) [] c (record c { dropped_non_critical = c.dropped_non_critical + 1 })
  Kept-dropped h = record {
    same_size = refl;
    all_kept = omega arith;
    criticals_kept = rw h (omega arith);
    size_kept = λ h. h;
  }

  requeue-Kept : Kept (e ∷ []) [] c (requeue c e)
  unfolding requeue
  requeue-Kept = elim (Bool-cases (is_full c)) [
    | inr room ↦ rw room (Kept-queued room)
    | inl full ↦ elim (Bool-cases (is_critical e)) [
      | inl h ↦ rw (full, h) (Kept-spooled c.spooled_critical)
      | inr h ↦ rw (full, h) (Kept-dropped h)
    ]
  ]

pub take_events-append :
    (n : ℕ) (queue : List AnalyticsEvent)
    → let (events, rest) = take_events n queue in events ++ rest ≡ queue
unfolding take_events
take_events-append zero queue = refl
take_events-append (suc n) [] = refl
take_events-append (suc n) (e ∷ queue) = ap (λ q. e ∷ q) (take_events-append n queue)

drain_batch-Kept :
    (c : AnalyticsCollector) (n : ℕ) → Kept [] (drain_batch c n).0 c (drain_batch c n).1
unfolding drain_batch
drain_batch-Kept c n =
    let (events, rest) = take_events n c.queue in
    let split : events ++ rest ≡ c.queue = take_events-append n c.queue in
    record {
      same_size = refl;
      all_kept = omega (arith, length-append events rest, ap length split);
      criticals_kept = omega (arith, criticals-append events rest, ap criticals split);
      size_kept = λ h. elim h [
        | inl z ↦ inl z
        | inr b ↦ inr (omega (arith, b, length-append events rest, ap length split))
      ];
    }

-- What is done to a collector: an event is offered, a batch is taken, a batch is given back.
pub data Op : Type 0 where
  offer : AnalyticsEvent → Op
  take_batch : ℕ → Op
  give_back : List AnalyticsEvent → Op

abbrev pub given : Op → List AnalyticsEvent
given (offer e) = e ∷ []
given (take_batch n) = []
given (give_back events) = events

unfoldable pub step : AnalyticsCollector → Op → List AnalyticsEvent × AnalyticsCollector
step c (offer e) = ([], (collect c e).1)
step c (take_batch n) = drain_batch c n
step c (give_back events) = ([], requeue_front c events)

-- The events given and taken in a run, and the collector after it.
unfoldable pub run_given : List Op → List AnalyticsEvent
run_given [] = []
run_given (op ∷ ops) = given op ++ run_given ops

unfoldable pub run : AnalyticsCollector → List Op → List AnalyticsEvent × AnalyticsCollector
run c [] = ([], c)
run c (op ∷ ops) = let (taken, d) = step c op in let (more, e) = run d ops in (taken ++ more, e)

Kept-then :
    (xs ys ts us : List AnalyticsEvent) (c d e : AnalyticsCollector)
    → Kept xs ts c d
    → Kept ys us d e
    → Kept (xs ++ ys) (ts ++ us) c e
Kept-then xs ys ts us c d e h k = record {
  same_size = k.same_size ∙ h.same_size;
  all_kept = omega (arith, h.all_kept, k.all_kept, length-append xs ys, length-append ts us);
  criticals_kept =
      omega
        (arith, h.criticals_kept, k.criticals_kept, criticals-append xs ys, criticals-append ts us);
  size_kept = λ w. k.size_kept (h.size_kept w);
}

requeue_front-Kept :
    (c : AnalyticsCollector) (events : List AnalyticsEvent)
    → Kept events [] c (requeue_front c events)
unfolding requeue_front
requeue_front-Kept c [] = Kept-refl c
requeue_front-Kept c (e ∷ events) =
    Kept-then (e ∷ []) events [] [] c (requeue c e) (requeue_front (requeue c e) events)
      (requeue-Kept c e) (requeue_front-Kept (requeue c e) events)

-- A batch that was taken is given back.
pub requeue_front-drain_batch :
    (c : AnalyticsCollector) (n : ℕ)
    → Kept [] [] c (requeue_front (drain_batch c n).1 (drain_batch c n).0)
requeue_front-drain_batch c n =
    let events = (drain_batch c n).0 in
    let rest = (drain_batch c n).1 in
    let out = drain_batch-Kept c n in
    let back = requeue_front-Kept rest events in
    record {
      same_size = back.same_size ∙ out.same_size;
      all_kept = omega (arith, out.all_kept, back.all_kept);
      criticals_kept = omega (arith, out.criticals_kept, back.criticals_kept);
      size_kept = λ w. back.size_kept (out.size_kept w);
    }
