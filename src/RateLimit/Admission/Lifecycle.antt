-- ===== src/RateLimit/Admission/Lifecycle.antt =====
-- From the admission of a request to its end, while Redis answers.
use llm_inference_gpu_server.Common.{String, ◌≡◌, refl, ap, sym, ◌∙◌, Bool, true, false, arith}
use llm_inference_gpu_server.Common.Int.{ℤ, pos, negsuc, ◌+ℤ◌, ◌-ℤ◌, ◌≤ℤ◌, +ℤ_zero}
use llm_inference_gpu_server.Errors.{Action, ◌>>=◌}
use llm_inference_gpu_server.Errors.Ends.{Ends, Ends-bind, Ends-pure, Ends-weaken}
use llm_inference_gpu_server.Redis.{RedisLike, RedisLaws, IsReliable, count_of}
use llm_inference_gpu_server.Auth.{AuthContext}
use llm_inference_gpu_server.RateLimit.Keys.{concurrency_ne_rpm, concurrency_ne_tpm, rpm_ne_tpm}
use llm_inference_gpu_server.RateLimit.Limiter.{Gate, rpm_key, tpm_key}
use llm_inference_gpu_server.RateLimit.Limiter.Calls.{count_at, Sets}
use llm_inference_gpu_server.RateLimit.Concurrency
use llm_inference_gpu_server.RateLimit.Concurrency.{concurrency_key, ConcurrencyLease}
use llm_inference_gpu_server.RateLimit.Concurrency.Slots.{freed, release-Sets}
use llm_inference_gpu_server.RateLimit.Quota
use llm_inference_gpu_server.RateLimit.Quota.{reservation, tokens_to_release}
use llm_inference_gpu_server.RateLimit.Quota.Charge.{
  charged, settled, settled-charged, finalize-Sets,
}
use llm_inference_gpu_server.RateLimit.Admission.{
  AdmissionLease, AdmissionService, slot, release_slot, release, finalize_tokens, admit,
}
use llm_inference_gpu_server.RateLimit.Admission.Outcome.{Moved, Refusal, admit-Admitted}

-- The slot of a request that has been counted is the one that is given back.
freed-add_one : (c : ℤ) → pos 0 ≤ℤ c → freed (c +ℤ pos 1) ≡ c
unfolding ◌+ℤ◌ ◌-ℤ◌
freed-add_one (pos c) h = ground arith
freed-add_one (negsuc c) h = absurd (omega arith)

module _ {S : Type 0} (redis : RedisLike S) where
  -- A request from its admission to the end of its response.
  pub serve : AdmissionService → AuthContext → ℤ → ℤ → Bool → Action (Gate S) AdmissionLease
  serve service auth estimated actual release_all = do
    lease ← admit redis service auth estimated
    settled_lease ← finalize_tokens redis lease actual release_all
    release redis settled_lease

module _ {S : Type 0} (redis : RedisLike S) (laws : RedisLaws redis) (answers : IsReliable redis)
    (service : AdmissionService) (auth : AuthContext) (estimated : ℤ) where
  abbrev id : String
  id = auth.api_key_id

  finalize_tokens-Sets :
      (actual : ℤ) (release_all : Bool) (c : ConcurrencyLease) (w : Gate S)
      → Ends
          (λ l u.
            (l ≡ record {
              concurrency = slot c;
              token_reservation = reservation (tpm_key id) estimated true;
            })
            × Sets laws
                (tpm_key id)
                (settled
                  (count_at laws w (tpm_key id))
                  (tokens_to_release estimated actual release_all))
                w
                u)
          (λ _ _. ⊥)
          (finalize_tokens redis
            (record {
              concurrency = slot c;
              token_reservation = reservation (tpm_key id) estimated false;
            })
            actual
            release_all
            w)
  unfolding finalize_tokens
  finalize_tokens-Sets actual release_all c w =
      Ends-bind (Quota.finalize redis (reservation (tpm_key id) estimated false) actual release_all)
        _ w (finalize-Sets redis laws answers (tpm_key id) estimated actual release_all w)
        (λ t u h.
          Ends-pure _ _ _ u
            (ap (λ r. record { concurrency = slot c; token_reservation = r }) h.0, h.1))
        (λ _ _ no. no)

  release-freed :
      (c : ConcurrencyLease) (t : Quota.TokenReservation) (w : Gate S)
      → c.released ≡ false
      → Ends
          (λ l u. Sets laws c.key (freed (count_at laws w c.key)) w u)
          (λ _ _. ⊥)
          (release redis (record { concurrency = slot c; token_reservation = t }) w)
  unfolding release release_slot
  release-freed c t w held =
      Ends-bind _ _ w
        (Ends-bind (Concurrency.release redis c) _ w (release-Sets redis laws answers c w held)
          (λ l u h.
            Ends-pure (slot l) (λ _ u. Sets laws c.key (freed (count_at laws w c.key)) w u)
              (λ _ _. ⊥) u h.1)
          (λ _ _ no. no))
        (λ _ u h. Ends-pure _ _ _ u h) (λ _ _ no. no)

  ended :
      (actual : ℤ) (release_all : Bool) (w u v x : Gate S)
      → Moved redis laws id (pos 1) (pos 1) estimated w u
      → Sets laws
          (tpm_key id)
          (settled (count_at laws u (tpm_key id)) (tokens_to_release estimated actual release_all))
          u
          v
      → Sets laws (concurrency_key id) (freed (count_at laws v (concurrency_key id))) v x
      → pos 1 ≤ℤ estimated
      → pos 0 ≤ℤ actual
      → pos 0 ≤ℤ count_at laws w (concurrency_key id)
      → pos 0 ≤ℤ count_at laws w (tpm_key id)
      → Moved redis laws id (pos 1) (pos 0) (charged estimated actual release_all) w x
  ended actual release_all w u v x m g f he ha hc ht = (
    ap count_of (f.1 (rpm_key id) (λ e. concurrency_ne_rpm id id (sym e)))
        ∙ ap count_of (g.1 (rpm_key id) (rpm_ne_tpm id id))
        ∙ m.0,
    f.0
        ∙ ap freed (ap count_of (g.1 (concurrency_key id) (concurrency_ne_tpm id id)) ∙ m.1)
        ∙ freed-add_one (count_at laws w (concurrency_key id)) hc
        ∙ sym (+ℤ_zero _),
    ap count_of (f.1 (tpm_key id) (λ e. concurrency_ne_tpm id id (sym e)))
        ∙ g.0
        ∙ ap (λ c. settled c (tokens_to_release estimated actual release_all)) m.2
        ∙ settled-charged (count_at laws w (tpm_key id)) estimated actual release_all ht
            (omega arith) ha,
  )

  -- A request that is served has been counted as one request, has given its slot back, and is charged
  -- the tokens that it has used, at most its estimate.
  pub serve-Moved :
      (actual : ℤ) (release_all : Bool) (w : Gate S)
      → service.has_redis ≡ true
      → pos 1 ≤ℤ estimated
      → pos 0 ≤ℤ actual
      → pos 0 ≤ℤ count_at laws w (concurrency_key id)
      → pos 0 ≤ℤ count_at laws w (tpm_key id)
      → Ends
          (λ _ u. Moved redis laws id (pos 1) (pos 0) (charged estimated actual release_all) w u)
          (λ e u. Refusal redis laws service id estimated w e u)
          (serve redis service auth estimated actual release_all w)
  unfolding serve
  serve-Moved actual release_all w has some_tokens ha hc ht =
      Ends-bind (admit redis service auth estimated) _ w
        (admit-Admitted redis laws answers service auth estimated w has some_tokens)
        (λ lease u h. rw h.lease_held (
          Ends-bind (finalize_tokens redis _ actual release_all) _ u
            (finalize_tokens-Sets actual release_all _ u)
            (λ l v g. rw g.0 (
              Ends-weaken _ (release-freed _ _ v refl)
                (λ _ x f. ended actual release_all w u v x h.moved g.1 f some_tokens ha hc ht)
                (λ _ _ no. absurd no)))
            (λ _ _ no. absurd no)))
        (λ _ _ r. r)
