-- ===== src/RateLimit/Limiter/Exact.antt =====
-- The overload gate and the request limiter while Redis answers.
use llm_inference_gpu_server.Common.{
  String, ◌≡◌, refl, ap, sym, subst, ◌∙◌, inl, inr, none, some, Option, Bool-cases, str_eq, eq_iff,
}
use llm_inference_gpu_server.Common.Int.{
  within_limit, over_limit, ℤ, pos, ◌+ℤ◌, ◌≤ℤ◌, ◌<ℤ◌, ltb_ℤ, eqb_ℤ,
}
use llm_inference_gpu_server.Errors.{app}
use llm_inference_gpu_server.Errors.Ends.{
  Ends, Ends-bind, Ends-then, Ends-pure, Ends-raise_if, Ends-weaken, Ends-Returns,
}
use llm_inference_gpu_server.Redis.{
  RedisLike, RedisLaws, IsReliable, Entry, count_of, add, set_ttl, same, Changed,
}
use llm_inference_gpu_server.RateLimit.Limiter.{
  Gate, rpm_key, rpm_window_seconds, overload_key, server_overloaded, rate_limit_exceeded,
  is_overload, redis_call, check_overload, arm_window, check_rpm,
}
use llm_inference_gpu_server.RateLimit.Limiter.Calls.{
  entry_at, count_at, Sets, Unmoved, redis_call-Ends, redis_call-Answered,
}

pub count-set_ttl : (o : Option Entry) → count_of (set_ttl rpm_window_seconds o) ≡ count_of o
count-set_ttl none = refl
count-set_ttl (some e) = refl

module _ {S : Type 0} (redis : RedisLike S) (laws : RedisLaws redis)
    (answers : IsReliable redis) where
  Unmoved-of : (k : String) (w u : Gate S) → Changed (entry_at laws) k same w u → Unmoved laws w u
  Unmoved-of k w u h j = elim (Bool-cases (str_eq j k)) [
    | inl e ↦ subst (λ i. entry_at laws u i ≡ entry_at laws w i) (sym ((eq_iff j k).0 e)) h.0
    | inr ne ↦ h.1 j (λ e. cc (ne, (eq_iff j k).1 e))
  ]

  pub check_overload-Unmoved :
      (w : Gate S)
      → Ends
          (λ _ u. Unmoved laws w u)
          (λ e u. (e ≡ app server_overloaded) × Unmoved laws w u)
          (check_overload redis w)
  unfolding check_overload
  check_overload-Unmoved w =
      Ends-bind (redis_call (redis.get overload_key)) _ w
        (redis_call-Ends laws (redis.get overload_key) w (
          Ends-Returns (redis.get overload_key w.redis) (answers.get_returns overload_key w.redis)
            (laws.get_law overload_key w.redis)))
        (λ value u h.
          Ends-raise_if (is_overload value) (app server_overloaded) u
            (λ _. Unmoved-of overload_key w u h) (λ _. (refl, Unmoved-of overload_key w u h)))
        (λ _ _ no. absurd no)

  arm_window-Sets :
      (k : String) (count : ℤ) (w : Gate S)
      → Ends (λ _ u. Sets laws k (count_at laws w k) w u) (λ _ _. ⊥) (arm_window redis k count w)
  unfolding arm_window
  arm_window-Sets k count w = elim (Bool-cases (eqb_ℤ count (pos 1))) [
    | inl first ↦ rw first (
        Ends-weaken (redis_call (redis.expire k rpm_window_seconds) w)
          (redis_call-Answered laws (redis.expire k rpm_window_seconds) k
            (set_ttl rpm_window_seconds) tt w (answers.expire_returns k rpm_window_seconds w.redis)
            (laws.expire_law k rpm_window_seconds w.redis))
          (λ _ u h. (ap count_of h.1.0 ∙ count-set_ttl (entry_at laws w k), h.1.1)) (λ _ _ no. no))
    | inr later ↦ rw later (Ends-pure tt _ _ w (refl, λ j _. refl))
  ]

  -- A request is counted in any case, and passes exactly if the counter is then within the limit.
  pub check_rpm-Sets :
      (id : String) (limit : ℤ) (w : Gate S)
      → let k = rpm_key id in
        Ends
          (λ _ u.
            Sets laws k (count_at laws w k +ℤ pos 1) w u × (count_at laws w k +ℤ pos 1 ≤ℤ limit))
          (λ e u.
            (e ≡ app rate_limit_exceeded)
            × Sets laws k (count_at laws w k +ℤ pos 1) w u
            × (limit <ℤ count_at laws w k +ℤ pos 1))
          (check_rpm redis id limit w)
  unfolding check_rpm
  check_rpm-Sets id limit w =
      let k = rpm_key id in
      Ends-bind (redis_call (redis.incr k)) _ w
        (redis_call-Answered laws (redis.incr k) k (add (pos 1)) (count_at laws w k +ℤ pos 1) w
          (answers.incr_returns k w.redis) (laws.incr_law k w.redis))
        (λ count u h.
          Ends-then (arm_window redis k count) _ u (arm_window-Sets k count u)
            (λ _ v g.
              Ends-raise_if (ltb_ℤ limit count) (app rate_limit_exceeded) v
                (λ room. (
                  (g.0 ∙ ap count_of h.1.0, λ j ne. g.1 j ne ∙ h.1.1 j ne),
                  subst (λ c. c ≤ℤ limit) h.0 (within_limit limit count room),
                ))
                (λ over. (
                  refl,
                  (g.0 ∙ ap count_of h.1.0, λ j ne. g.1 j ne ∙ h.1.1 j ne),
                  subst (λ c. limit <ℤ c) h.0 (over_limit limit count over),
                )))
            (λ _ _ no. absurd no))
        (λ _ _ no. absurd no)
