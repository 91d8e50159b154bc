-- ===== src/RateLimit/Concurrency/Slots.antt =====
-- The counter of concurrent requests under one call of `acquire` or `release`, while Redis answers.
use llm_inference_gpu_server.Common.{
  String, ◌≡◌, refl, ap, sym, subst, inl, inr, ◌∙◌, true, false, if◌then◌else◌, Bool-cases,
}
use llm_inference_gpu_server.Common.Int.{
  within_limit, over_limit, ℤ, pos, ◌+ℤ◌, ◌-ℤ◌, ◌≤ℤ◌, ◌<ℤ◌, ltb_ℤ, leb_ℤ, int_laws, pos_part,
  neg_part,
}
use llm_inference_gpu_server.Errors.{Exc, app, ok, pure}
use llm_inference_gpu_server.Errors.Ends.{
  Ends, Ends-bind, Ends-then, Ends-pure, Ends-throw, Ends-weaken, Ends-try_except,
}
use llm_inference_gpu_server.Redis.{RedisLike, RedisLaws, IsReliable, count_of, add, sub, Changed}
use llm_inference_gpu_server.RateLimit.Limiter.{Gate, redis_call, raw_call, delete_if_empty}
use llm_inference_gpu_server.RateLimit.Limiter.Calls.{
  entry_at, count_at, Sets, delete_if_empty-Sets, redis_call-Answered, raw_call-Answered,
}
use llm_inference_gpu_server.RateLimit.Concurrency.{
  concurrency_key, ConcurrencyLease, concurrency_limit_exceeded, give_back, release, reject,
  acquire,
}

-- The counter after a slot is given back: the key is deleted where it would fall to 0 or below.
abbrev pub freed : ℤ → ℤ
freed c = if leb_ℤ (c -ℤ pos 1) (pos 0) then pos 0 else c -ℤ pos 1

-- Taking one slot and rolling it back leaves the counter as it was.
rolled_back : (c c' c'' : ℤ) → c' ≡ c +ℤ pos 1 → c'' ≡ c' -ℤ pos 1 → c'' ≡ c
rolled_back c c' c'' e f =
    omega (int_laws, ap pos_part e, ap neg_part e, ap pos_part f, ap neg_part f)

module _ {S : Type 0} (redis : RedisLike S) (laws : RedisLaws redis) where
  -- A slot has been taken within the limit.
  abbrev pub Took : String → ℤ → Gate S → ConcurrencyLease → Gate S → Type 0
  Took k limit w lease u =
      (lease ≡ record { key = k; released = false })
      × Sets laws k (count_at laws w k +ℤ pos 1) w u
      × (count_at laws w k +ℤ pos 1 ≤ℤ limit)

  -- The limit is reached, and every counter is as it was.
  abbrev pub Refused : String → ℤ → Gate S → Exc → Gate S → Type 0
  Refused k limit w e u =
      (e ≡ app concurrency_limit_exceeded)
      × Sets laws k (count_at laws w k) w u
      × (limit <ℤ count_at laws w k +ℤ pos 1)

  module _ (answers : IsReliable redis) where
    -- A slot that is given back lowers the counter by one, and deletes it at 0.
    pub give_back-Sets :
        (k : String) (w : Gate S)
        → Ends (λ _ u. Sets laws k (freed (count_at laws w k)) w u) (λ _ _. ⊥) (give_back redis k w)
    unfolding give_back
    give_back-Sets k w =
        Ends-try_except _ _ w
          (Ends-bind (raw_call (redis.decr k)) _ w
            (raw_call-Answered laws (redis.decr k) k (sub (pos 1)) (count_at laws w k -ℤ pos 1) w
              (answers.decr_returns k w.redis) (laws.decr_law k w.redis))
            (λ remaining u h.
              Ends-weaken (delete_if_empty redis k remaining u)
                (delete_if_empty-Sets laws answers k remaining u (ap count_of h.1.0 ∙ sym h.0))
                (λ _ v g. (
                  g.0 ∙ ap (λ c. if leb_ℤ c (pos 0) then pos 0 else c) h.0,
                  λ j ne. g.1 j ne ∙ h.1.1 j ne,
                ))
                (λ _ _ no. no))
            (λ _ _ no. no))
          (λ _ _ no. absurd no)

    reject-Sets :
        (k : String) (w u : Gate S)
        → Changed (entry_at laws) k (add (pos 1)) w u
        → Ends
            (λ _ _. ⊥)
            (λ e v. (e ≡ app concurrency_limit_exceeded) × Sets laws k (count_at laws w k) w v)
            (reject redis k u)
    unfolding reject
    reject-Sets k w u h =
        Ends-then _ _ u
          (Ends-try_except _ _ u
            (Ends-then (raw_call (redis.decr k)) _ u
              (raw_call-Answered laws (redis.decr k) k (sub (pos 1)) (count_at laws u k -ℤ pos 1) u
                (answers.decr_returns k u.redis) (laws.decr_law k u.redis))
              (λ _ v g.
                Ends-pure tt (λ _ v. Sets laws k (count_at laws w k) w v) (λ _ _. ⊥) v
                  (
                    rolled_back (count_at laws w k) (count_at laws u k) (count_at laws v k)
                        (ap count_of h.0) (ap count_of g.1.0),
                    λ j ne. g.1.1 j ne ∙ h.1 j ne,
                  ))
              (λ _ _ no. no))
            (λ _ _ no. absurd no))
          (λ _ v g. Ends-throw _ _ _ v (refl, g)) (λ _ _ no. absurd no)

    -- `acquire` either takes a slot within the limit, or is refused because the limit is reached and
    -- then leaves every counter as it was.
    pub acquire-Sets :
        (id : String) (limit : ℤ) (w : Gate S)
        → Ends
            (Took (concurrency_key id) limit w)
            (Refused (concurrency_key id) limit w)
            (acquire redis id limit w)
    unfolding acquire
    acquire-Sets id limit w =
        let k = concurrency_key id in
        Ends-bind (redis_call (redis.incr k)) _ w
          (redis_call-Answered laws (redis.incr k) k (add (pos 1)) (count_at laws w k +ℤ pos 1) w
            (answers.incr_returns k w.redis) (laws.incr_law k w.redis))
          (λ count u h. elim (Bool-cases (ltb_ℤ limit count)) [
            | inl over ↦ rw over (
                Ends-weaken (reject redis k u) (reject-Sets k w u h.1) (λ _ _ no. absurd no)
                  (λ _ v g. (g.0, g.1, subst (λ c. limit <ℤ c) h.0 (over_limit limit count over))))
            | inr room ↦ rw room (
                Ends-pure _ _ _ u (
                  refl,
                  (ap count_of h.1.0, h.1.1),
                  subst (λ c. c ≤ℤ limit) h.0 (within_limit limit count room),
                ))
          ])
          (λ _ _ no. absurd no)

    -- The first release of a lease gives its slot back.
    pub release-Sets :
        (lease : ConcurrencyLease) (w : Gate S)
        → lease.released ≡ false
        → Ends
            (λ l u.
              (l ≡ record { key = lease.key; released = true })
              × Sets laws lease.key (freed (count_at laws w lease.key)) w u)
            (λ _ _. ⊥)
            (release redis lease w)
    unfolding release
    release-Sets lease w held = rw held (
        Ends-then (give_back redis lease.key) _ w (give_back-Sets lease.key w)
          (λ _ u h. Ends-pure _ _ _ u (refl, h)) (λ _ _ no. no))

  -- A second release does nothing, whatever Redis does.
  pub release_again :
      (lease : ConcurrencyLease) (w : Gate S)
      → lease.released ≡ true
      → release redis lease w ≡ (ok lease, w)
  unfolding release pure
  release_again lease w done = rw done refl
