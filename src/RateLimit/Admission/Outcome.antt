-- ===== src/RateLimit/Admission/Outcome.antt =====
-- Every way in which an admission can end, while Redis answers.
use llm_inference_gpu_server.Common.{String, ◌≡◌, refl, ap, sym, subst, ◌∙◌, true, false, arith}
use llm_inference_gpu_server.Common.Int.{ℤ, pos, ◌+ℤ◌, ◌≤ℤ◌, ◌<ℤ◌, leb_ℤ, +ℤ_zero}
use llm_inference_gpu_server.Errors.{Exc, app}
use llm_inference_gpu_server.Errors.Ends.{Ends, Ends-bind, Ends-then, Ends-pure}
use llm_inference_gpu_server.Redis.{RedisLike, RedisLaws, IsReliable, count_of}
use llm_inference_gpu_server.Auth.{AuthContext}
use llm_inference_gpu_server.RateLimit.Keys.{concurrency_ne_rpm, concurrency_ne_tpm, rpm_ne_tpm}
use llm_inference_gpu_server.RateLimit.Limiter.{
  Gate, rpm_key, tpm_key, server_overloaded, rate_limit_exceeded, check_overload, check_rpm,
}
use llm_inference_gpu_server.RateLimit.Limiter.Calls.{count_at, Sets, Unmoved}
use llm_inference_gpu_server.RateLimit.Limiter.Exact.{check_overload-Unmoved, check_rpm-Sets}
use llm_inference_gpu_server.RateLimit.Concurrency
use llm_inference_gpu_server.RateLimit.Concurrency.{concurrency_key, concurrency_limit_exceeded}
use llm_inference_gpu_server.RateLimit.Concurrency.Slots.{Took, Refused, acquire-Sets}
use llm_inference_gpu_server.RateLimit.Quota
use llm_inference_gpu_server.RateLimit.Quota.{reservation, token_rate_limit_exceeded}
use llm_inference_gpu_server.RateLimit.Quota.Charge.{Reserved, Rejected, reserve_tokens-Reserved}
use llm_inference_gpu_server.RateLimit.Admission.{AdmissionLease, AdmissionService, slot, admit}

module _ {S : Type 0} (redis : RedisLike S) (laws : RedisLaws redis) where
  -- The three counters of an API key have moved by these amounts.
  abbrev pub Moved : String → ℤ → ℤ → ℤ → Gate S → Gate S → Type 0
  Moved id requests slots tokens w u =
      (count_at laws u (rpm_key id) ≡ count_at laws w (rpm_key id) +ℤ requests)
      × (count_at laws u (concurrency_key id) ≡ count_at laws w (concurrency_key id) +ℤ slots)
      × (count_at laws u (tpm_key id) ≡ count_at laws w (tpm_key id) +ℤ tokens)

  module _ (service : AdmissionService) (id : String) (estimated : ℤ) (w : Gate S) where
    abbrev admitted_lease : AdmissionLease
    admitted_lease = record {
      concurrency = slot (record { key = concurrency_key id; released = false });
      token_reservation = reservation (tpm_key id) estimated false;
    }

    -- A request is admitted: it holds a slot and its tokens, and every limit is kept.
    pub record Admitted (lease : AdmissionLease) (u : Gate S) : Type 0 where
      pub lease_held : lease ≡ admitted_lease
      pub moved : Moved id (pos 1) (pos 1) estimated w u
      pub rpm_within : count_at laws u (rpm_key id) ≤ℤ service.rpm_limit
      pub slots_within : count_at laws u (concurrency_key id) ≤ℤ service.concurrent_request_limit
      pub tokens_within : count_at laws u (tpm_key id) ≤ℤ service.tpm_limit

    -- A request is refused, by the first check that fails.
    pub data Refusal (e : Exc) (u : Gate S) : Type 0 where
      overloaded : e ≡ app server_overloaded → Moved id (pos 0) (pos 0) (pos 0) w u → Refusal e u
      too_many_requests :
          e ≡ app rate_limit_exceeded
          → Moved id (pos 1) (pos 0) (pos 0) w u
          → service.rpm_limit <ℤ count_at laws w (rpm_key id) +ℤ pos 1
          → Refusal e u
      too_many_slots :
          e ≡ app concurrency_limit_exceeded
          → Moved id (pos 1) (pos 0) (pos 0) w u
          → service.concurrent_request_limit <ℤ count_at laws w (concurrency_key id) +ℤ pos 1
          → Refusal e u
      too_many_tokens :
          e ≡ app token_rate_limit_exceeded
          → Moved id (pos 1) (pos 1) (pos 0) w u
          → service.tpm_limit <ℤ count_at laws w (tpm_key id) +ℤ estimated
          → Refusal e u

  module _ (id : String) (w a b : Gate S) where
    move_none : Unmoved laws w a → Moved id (pos 0) (pos 0) (pos 0) w a
    move_none h = (
      ap count_of (h (rpm_key id)) ∙ sym (+ℤ_zero _),
      ap count_of (h (concurrency_key id)) ∙ sym (+ℤ_zero _),
      ap count_of (h (tpm_key id)) ∙ sym (+ℤ_zero _),
    )

    move_request :
        (r s t : ℤ)
        → Moved id (pos 0) s t w a
        → Sets laws (rpm_key id) (count_at laws a (rpm_key id) +ℤ r) a b
        → Moved id r s t w b
    move_request r s t h g = (
      g.0 ∙ ap (λ c. c +ℤ r) (h.0 ∙ +ℤ_zero _),
      ap count_of (g.1 (concurrency_key id) (concurrency_ne_rpm id id)) ∙ h.1,
      ap count_of (g.1 (tpm_key id) (λ e. rpm_ne_tpm id id (sym e))) ∙ h.2,
    )

    move_slot :
        (r s t : ℤ)
        → Moved id r (pos 0) t w a
        → Sets laws (concurrency_key id) (count_at laws a (concurrency_key id) +ℤ s) a b
        → Moved id r s t w b
    move_slot r s t h g = (
      ap count_of (g.1 (rpm_key id) (λ e. concurrency_ne_rpm id id (sym e))) ∙ h.0,
      g.0 ∙ ap (λ c. c +ℤ s) (h.1 ∙ +ℤ_zero _),
      ap count_of (g.1 (tpm_key id) (λ e. concurrency_ne_tpm id id (sym e))) ∙ h.2,
    )

    move_tokens :
        (r s t : ℤ)
        → Moved id r s (pos 0) w a
        → Sets laws (tpm_key id) (count_at laws a (tpm_key id) +ℤ t) a b
        → Moved id r s t w b
    move_tokens r s t h g = (
      ap count_of (g.1 (rpm_key id) (rpm_ne_tpm id id)) ∙ h.0,
      ap count_of (g.1 (concurrency_key id) (concurrency_ne_tpm id id)) ∙ h.1,
      g.0 ∙ ap (λ c. c +ℤ t) (h.2 ∙ +ℤ_zero _),
    )

not_le_zero : (n : ℤ) → pos 1 ≤ℤ n → leb_ℤ n (pos 0) ≡ false
not_le_zero n h = ground arith

-- With something to reserve, `reserve` goes to Redis.
reserve-reserve_tokens :
    {S : Type 0} (redis : RedisLike S) (limit : ℤ) (id : String) (estimated : ℤ) (w : Gate S)
    → pos 1 ≤ℤ estimated
    → Quota.reserve redis true limit id estimated w
      ≡ Quota.reserve_tokens redis limit (tpm_key id) estimated w
unfolding Quota.reserve
reserve-reserve_tokens redis limit id estimated w h = rw (not_le_zero estimated h) refl

module _ {S : Type 0} (redis : RedisLike S) (laws : RedisLaws redis) (answers : IsReliable redis)
    (service : AdmissionService) (auth : AuthContext) (estimated : ℤ) where
  abbrev id : String
  id = auth.api_key_id

  -- Up to the request counter, up to the slot, up to the tokens.
  requests-Moved :
      (w a b : Gate S)
      → Unmoved laws w a
      → Sets laws (rpm_key id) (count_at laws a (rpm_key id) +ℤ pos 1) a b
      → Moved redis laws id (pos 1) (pos 0) (pos 0) w b
  requests-Moved w a b h g =
      move_request redis laws id w a b (pos 1) (pos 0) (pos 0) (move_none redis laws id w a a h) g

  slots-Moved :
      (w b c : Gate S) (s : ℤ)
      → Moved redis laws id (pos 1) (pos 0) (pos 0) w b
      → Sets laws (concurrency_key id) (count_at laws b (concurrency_key id) +ℤ s) b c
      → Moved redis laws id (pos 1) s (pos 0) w c
  slots-Moved w b c s m g = move_slot redis laws id w b c (pos 1) s (pos 0) m g

  reserve-Reserved :
      (c : Gate S)
      → service.has_redis ≡ true
      → pos 1 ≤ℤ estimated
      → Ends
          (Reserved redis laws answers service.tpm_limit (tpm_key id) estimated c)
          (Rejected redis laws answers service.tpm_limit (tpm_key id) estimated c)
          (Quota.reserve redis service.has_redis service.tpm_limit id estimated c)
  reserve-Reserved c has some_tokens =
      rw (has, reserve-reserve_tokens redis service.tpm_limit id estimated c some_tokens)
        (reserve_tokens-Reserved redis laws answers service.tpm_limit (tpm_key id) estimated c)

  Refusal-request :
      (w a b : Gate S) (e : Exc)
      → Unmoved laws w a
      → (e ≡ app rate_limit_exceeded)
        × Sets laws (rpm_key id) (count_at laws a (rpm_key id) +ℤ pos 1) a b
        × (service.rpm_limit <ℤ count_at laws a (rpm_key id) +ℤ pos 1)
      → Refusal redis laws service id estimated w e b
  Refusal-request w a b e h g =
      too_many_requests g.0 (requests-Moved w a b h g.1)
        (subst (λ c. service.rpm_limit <ℤ c +ℤ pos 1) (ap count_of (h (rpm_key id))) g.2)

  Refusal-slot :
      (w b c : Gate S) (e : Exc)
      → Moved redis laws id (pos 1) (pos 0) (pos 0) w b
      → Refused redis laws (concurrency_key id) service.concurrent_request_limit b e c
      → Refusal redis laws service id estimated w e c
  Refusal-slot w b c e m g =
      too_many_slots g.0 (slots-Moved w b c (pos 0) m (g.1.0 ∙ sym (+ℤ_zero _), g.1.1))
        (subst (λ n. service.concurrent_request_limit <ℤ n +ℤ pos 1) (m.1 ∙ +ℤ_zero _) g.2)

  Refusal-tokens :
      (w c d : Gate S) (e : Exc)
      → Moved redis laws id (pos 1) (pos 1) (pos 0) w c
      → Rejected redis laws answers service.tpm_limit (tpm_key id) estimated c e d
      → Refusal redis laws service id estimated w e d
  Refusal-tokens w c d e m g =
      too_many_tokens g.0
        (move_tokens redis laws id w c d (pos 1) (pos 1) (pos 0) m (g.1.0 ∙ sym (+ℤ_zero _), g.1.1))
        (subst (λ n. service.tpm_limit <ℤ n +ℤ estimated) (m.2 ∙ +ℤ_zero _) g.2)

  admitted :
      (w a b c d : Gate S) (l : Concurrency.ConcurrencyLease) (t : Quota.TokenReservation)
      → Unmoved laws w a
      → Sets laws (rpm_key id) (count_at laws a (rpm_key id) +ℤ pos 1) a b
        × (count_at laws a (rpm_key id) +ℤ pos 1 ≤ℤ service.rpm_limit)
      → Took redis laws (concurrency_key id) service.concurrent_request_limit b l c
      → Reserved redis laws answers service.tpm_limit (tpm_key id) estimated c t d
      → Admitted redis laws service id estimated w
          (record { concurrency = slot l; token_reservation = t })
          d
  admitted w a b c d l t h g f k =
      let m = slots-Moved w b c (pos 1) (requests-Moved w a b h g.0) f.1 in
      let n = move_tokens redis laws id w c d (pos 1) (pos 1) estimated m k.1 in
      record {
        lease_held = cc (f.0, k.0);
        moved = n;
        rpm_within =
            subst (λ x. x ≤ℤ service.rpm_limit)
              (ap (λ x. x +ℤ pos 1) (ap count_of (h (rpm_key id))) ∙ sym n.0) g.1;
        slots_within =
            subst (λ x. x ≤ℤ service.concurrent_request_limit)
              (sym (ap count_of (k.1.1 (concurrency_key id) (concurrency_ne_tpm id id)) ∙ f.1.0))
              f.2;
        tokens_within = subst (λ x. x ≤ℤ service.tpm_limit) (sym k.1.0) k.2;
      }

  pub admit-Admitted :
      (w : Gate S)
      → service.has_redis ≡ true
      → pos 1 ≤ℤ estimated
      → Ends
          (Admitted redis laws service auth.api_key_id estimated w)
          (Refusal redis laws service auth.api_key_id estimated w)
          (admit redis service auth estimated w)
  unfolding admit
  admit-Admitted w has some_tokens =
      Ends-then (check_overload redis) _ w (check_overload-Unmoved redis laws answers w)
        (λ _ a h.
          Ends-then (check_rpm redis id service.rpm_limit) _ a
            (check_rpm-Sets redis laws answers id service.rpm_limit a)
            (λ _ b g.
              Ends-bind (Concurrency.acquire redis id service.concurrent_request_limit) _ b
                (acquire-Sets redis laws answers id service.concurrent_request_limit b)
                (λ l c f.
                  Ends-bind (Quota.reserve redis service.has_redis service.tpm_limit id estimated) _
                    c (reserve-Reserved c has some_tokens)
                    (λ t d k. Ends-pure _ _ _ d (admitted w a b c d l t h g f k))
                    (λ e d k.
                      Refusal-tokens w c d e
                        (slots-Moved w b c (pos 1) (requests-Moved w a b h g.0) f.1) k))
                (λ e c f. Refusal-slot w b c e (requests-Moved w a b h g.0) f))
            (λ e b g. Refusal-request w a b e h g))
        (λ e a h. overloaded h.0 (move_none redis laws id w a a h.1))
