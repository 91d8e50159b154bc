-- ===== src/RateLimit/Limiter/Window.antt =====
-- What the request limiter promises: within one window at most `limit` requests pass.
use llm_inference_gpu_server.Common.{
  ⊤, ◌+◌, ◌+◌, String, ◌≡◌, ◌≢◌, ◌⊎◌, inl, inr, ℕ, zero, suc, false, none, some, ap, refl, ◌∙◌,
  arith, Bool-cases, Option-cases,
}
use llm_inference_gpu_server.Common.Int.{
  ℤ, pos, ◌+ℤ◌, ◌≤ℤ◌, eqb_ℤ, ltb_ℤ, pos_part, neg_part, int_laws,
}
use llm_inference_gpu_server.Errors.{app, Result, ok, raise}
use llm_inference_gpu_server.Errors.Ends.{
  Ends, Ends-bind, Ends-then, Ends-pure, Ends-raise_if, Ends-weaken,
}
use llm_inference_gpu_server.Redis.{
  RedisLike, RedisLaws, count_of, ttl_of, add, set_ttl, same, Changed,
}
use llm_inference_gpu_server.RateLimit.Limiter.{
  Gate, rpm_key, rpm_window_seconds, rate_limit_exceeded, redis_call, arm_window, check_rpm,
}
use llm_inference_gpu_server.RateLimit.Limiter.Calls.{entry_at, count_at, redis_call-Carried}

not_first : (count : ℤ) → eqb_ℤ count (pos 1) ≡ false → count ≡ pos 1 → ⊥
not_first count later first = ground arith

first_count : (count before : ℤ) → count ≡ before +ℤ pos 1 → before ≡ pos 0 → count ≡ pos 1
unfolding ◌+ℤ◌
first_count count before h fresh = ground arith

leb_of_ltb : (limit count c : ℤ) → c ≡ count → ltb_ℤ limit count ≡ false → c ≤ℤ limit
leb_of_ltb limit count c e within = ground arith

room_passed :
    (c c' limit : ℤ) (m : ℕ)
    → c' ≡ c +ℤ pos 1
    → c' ≤ℤ limit
    → (m ≡ 0) ⊎ (c' +ℤ pos m ≤ℤ limit)
    → (1 + m ≡ 0) ⊎ (c +ℤ pos (1 + m) ≤ℤ limit)
room_passed c c' limit m e within rest = grind (int_laws, ap pos_part e, ap neg_part e)

room_refused :
    (c c' limit : ℤ) (m : ℕ)
    → (c' ≡ c) ⊎ (c' ≡ c +ℤ pos 1)
    → (m ≡ 0) ⊎ (c' +ℤ pos m ≤ℤ limit)
    → (0 + m ≡ 0) ⊎ (c +ℤ pos (0 + m) ≤ℤ limit)
room_refused c c' limit m (inl e) rest = grind (int_laws, ap pos_part e, ap neg_part e)
room_refused c c' limit m (inr e) rest = grind (int_laws, ap pos_part e, ap neg_part e)

abbrev pub passed : Result ⊤ → ℕ
passed (ok _) = 1
passed (raise _) = 0

module _ {S : Type 0} (redis : RedisLike S) where
  -- `n` requests with one key: how many pass.
  pub check_many : String → ℤ → ℕ → Gate S → ℕ × Gate S
  check_many id limit zero w = (0, w)
  check_many id limit (suc n) w =
      let (r, u) = check_rpm redis id limit w in
      let (m, v) = check_many id limit n u in (passed r + m, v)

module _ {S : Type 0} (redis : RedisLike S) (laws : RedisLaws redis) where
  -- The counter has gone up by one, or a command failed and it has not; no other key has changed.
  abbrev Counted : String → Gate S → Gate S → Type 0
  Counted k w u =
      ((count_at laws u k ≡ count_at laws w k) ⊎ (count_at laws u k ≡ count_at laws w k +ℤ pos 1))
      × ((j : String) → j ≢ k → entry_at laws u j ≡ entry_at laws w j)

  abbrev Passed : String → ℤ → Gate S → Gate S → Type 0
  Passed k limit w u =
      (count_at laws u k ≡ count_at laws w k +ℤ pos 1)
      × (count_at laws u k ≤ℤ limit)
      × (count_at laws w k ≡ pos 0 → ttl_of (entry_at laws u k) ≡ some rpm_window_seconds)
      × ((j : String) → j ≢ k → entry_at laws u j ≡ entry_at laws w j)

  -- The window after `incr`, and after `expire` where that is called.
  abbrev Armed : String → ℤ → Gate S → Gate S → Type 0
  Armed k count w u =
      (count_at laws u k ≡ count_at laws w k)
      × (count ≡ pos 1 → ttl_of (entry_at laws u k) ≡ some rpm_window_seconds)
      × ((j : String) → j ≢ k → entry_at laws u j ≡ entry_at laws w j)

  abbrev Kept : String → Gate S → Gate S → Type 0
  Kept k w u =
      (count_at laws u k ≡ count_at laws w k)
      × ((j : String) → j ≢ k → entry_at laws u j ≡ entry_at laws w j)

  set_ttl-Armed :
      (k : String) (count : ℤ) (w u : Gate S)
      → entry_at laws w k ≢ none
      → Changed (entry_at laws) k (set_ttl rpm_window_seconds) w u
      → Armed k count w u
  set_ttl-Armed k count w u there (e, rest) = elim (Option-cases (entry_at laws w k)) [
    | inl absent ↦ absurd (there absent)
    | inr (x, present) ↦ (ground (arith, e, present), ground (arith, e, present), rest)
  ]

  set_ttl-Kept :
      (k : String) (w u : Gate S)
      → (Changed (entry_at laws) k (set_ttl rpm_window_seconds) w u)
        ⊎ (Changed (entry_at laws) k same w u)
      → Kept k w u
  set_ttl-Kept k w u (inl (e, rest)) = elim (Option-cases (entry_at laws w k)) [
    | inl absent ↦ (ground (arith, e, absent), rest)
    | inr (x, present) ↦ (ground (arith, e, present), rest)
  ]
  set_ttl-Kept k w u (inr (e, rest)) = (ap count_of e, rest)

  arm_window-Armed :
      (k : String) (count : ℤ) (w : Gate S)
      → entry_at laws w k ≢ none
      → Ends (λ _ u. Armed k count w u) (λ _ u. Kept k w u) (arm_window redis k count w)
  unfolding arm_window
  arm_window-Armed k count w there = elim (Bool-cases (eqb_ℤ count (pos 1))) [
    | inl first ↦ rw first (
        Ends-weaken (redis_call (redis.expire k rpm_window_seconds) w)
          (redis_call-Carried laws (redis.expire k rpm_window_seconds) k
            (set_ttl rpm_window_seconds) tt w (laws.expire_law k rpm_window_seconds w.redis))
          (λ _ u h. set_ttl-Armed k count w u there h.1) (λ _ u h. set_ttl-Kept k w u h))
    | inr later ↦
        rw later
          (Ends-pure tt _ _ w (refl, λ first. absurd (not_first count later first), λ j _. refl))
  ]

  counted-there :
      (k : String) (w u : Gate S)
      → Changed (entry_at laws) k (add (pos 1)) w u
      → entry_at laws u k ≢ none
  counted-there k w u h e = cc (h.0, e)

  Counted-of :
      (k : String) (w u v : Gate S)
      → Changed (entry_at laws) k (add (pos 1)) w u
      → Kept k u v
      → Counted k w v
  Counted-of k w u v h (e, rest) = (inr (cc (e, ap count_of h.0)), λ j ne. rest j ne ∙ h.1 j ne)

  Counted-of_raise :
      (k : String) (w u : Gate S)
      → (Changed (entry_at laws) k (add (pos 1)) w u) ⊎ (Changed (entry_at laws) k same w u)
      → Counted k w u
  Counted-of_raise k w u (inl (e, rest)) = (inr (ap count_of e), rest)
  Counted-of_raise k w u (inr (e, rest)) = (inl (ap count_of e), rest)

  Passed-of :
      (k : String) (w u v : Gate S) (limit count : ℤ)
      → (count ≡ count_at laws w k +ℤ pos 1) × Changed (entry_at laws) k (add (pos 1)) w u
      → Armed k count u v
      → ltb_ℤ limit count ≡ false
      → Passed k limit w v
  Passed-of k w u v limit count h g within = (
    cc (g.0, ap count_of h.1.0),
    leb_of_ltb limit count (count_at laws v k) (cc (g.0, ap count_of h.1.0, h.0)) within,
    λ fresh. g.1 (first_count count (count_at laws w k) h.0 fresh),
    λ j ne. g.2 j ne ∙ h.1.1 j ne,
  )

  -- Whatever Redis answers: a request that passes has been counted, the counter is within the limit,
  -- and the first request of a window has set its expiry; one that is refused has been counted at
  -- most once; and no other key is touched.
  pub check_rpm-Passed :
      (id : String) (limit : ℤ) (w : Gate S)
      → Ends
          (λ _ u. Passed (rpm_key id) limit w u)
          (λ _ u. Counted (rpm_key id) w u)
          (check_rpm redis id limit w)
  unfolding check_rpm
  check_rpm-Passed id limit w =
      Ends-bind (redis_call (redis.incr (rpm_key id))) _ w
        (redis_call-Carried laws (redis.incr (rpm_key id)) (rpm_key id) (add (pos 1))
          (count_at laws w (rpm_key id) +ℤ pos 1) w (laws.incr_law (rpm_key id) w.redis))
        (λ count u h.
          Ends-then (arm_window redis (rpm_key id) count) _ u
            (arm_window-Armed (rpm_key id) count u (counted-there (rpm_key id) w u h.1))
            (λ _ v g.
              Ends-raise_if (ltb_ℤ limit count) (app rate_limit_exceeded) v
                (λ within. Passed-of (rpm_key id) w u v limit count h g within)
                (λ _. Counted-of (rpm_key id) w u v h.1 (g.0, g.2)))
            (λ _ v g. Counted-of (rpm_key id) w u v h.1 g))
        (λ _ u h. Counted-of_raise (rpm_key id) w u h)

  -- One request more before `m` that pass.
  admits_more :
      (id : String) (limit : ℤ) (m : ℕ) (w : Gate S) (x : Result ⊤ × Gate S)
      → Ends (λ _ u. Passed (rpm_key id) limit w u) (λ _ u. Counted (rpm_key id) w u) x
      → (m ≡ 0) ⊎ (count_at laws x.1 (rpm_key id) +ℤ pos m ≤ℤ limit)
      → (passed x.0 + m ≡ 0) ⊎ (count_at laws w (rpm_key id) +ℤ pos (passed x.0 + m) ≤ℤ limit)
  admits_more id limit m w (ok a, u) h rest =
      room_passed (count_at laws w (rpm_key id)) (count_at laws u (rpm_key id)) limit m h.holds.0
        h.holds.1 rest
  admits_more id limit m w (raise e, u) h rest =
      room_refused (count_at laws w (rpm_key id)) (count_at laws u (rpm_key id)) limit m h.holds.0
        rest

  -- Of any number of requests in one window no more pass than the limit leaves room for, whatever
  -- commands of Redis fail on the way.
  pub check_many-le-limit :
      (id : String) (limit : ℤ) (n : ℕ) (w : Gate S)
      → let m = (check_many redis id limit n w).0 in
        (m ≡ 0) ⊎ (count_at laws w (rpm_key id) +ℤ pos m ≤ℤ limit)
  unfolding check_many
  check_many-le-limit id limit zero w = inl refl
  check_many-le-limit id limit (suc n) w =
      admits_more id limit (check_many redis id limit n (check_rpm redis id limit w).1).0 w
        (check_rpm redis id limit w) (check_rpm-Passed id limit w)
        (check_many-le-limit id limit n (check_rpm redis id limit w).1)
