-- ===== src/RateLimit/Quota/Charge.antt =====
-- What a reservation and its settlement do to the counter of tokens, while Redis answers.
use llm_inference_gpu_server.Common.{
  String, ◌≡◌, refl, ap, sym, subst, ◌∙◌, inl, inr, Bool, true, false, if◌then◌else◌, arith,
  Bool-cases, Option, none, some,
}
use llm_inference_gpu_server.Common.Int.{
  within_limit, over_limit, ℤ, pos, negsuc, ◌+ℤ◌, ◌-ℤ◌, ◌≤ℤ◌, ◌<ℤ◌, ltb_ℤ, leb_ℤ, eqb_ℤ, int_laws,
  pos_part, neg_part,
}
use llm_inference_gpu_server.Errors.{Exc, app, ok, pure, Action, ◌>>=◌}
use llm_inference_gpu_server.Errors.Ends.{
  Ends, Ends-bind, Ends-then, Ends-pure, Ends-throw, Ends-weaken, Ends-try_except,
}
use llm_inference_gpu_server.Redis.{
  RedisLike, RedisLaws, IsReliable, Entry, count_of, add, sub, set_ttl,
}
use llm_inference_gpu_server.RateLimit.Limiter.{Gate, redis_call, raw_call, delete_if_empty}
use llm_inference_gpu_server.RateLimit.Limiter.Calls.{
  entry_at, count_at, Sets, delete_if_empty-Sets, redis_call-Answered, raw_call-Answered,
}
use llm_inference_gpu_server.RateLimit.Quota.{
  TokenReservation, reservation, token_rate_limit_exceeded, tpm_window_seconds, tokens_to_release,
  refund, finalize, arm_tokens, reject_tokens, reserve_tokens,
}

-- The tokens that a request is charged in the end: what it used, and at most what it reserved.
abbrev pub charged : ℤ → ℤ → Bool → ℤ
charged reserved actual true = pos 0
charged reserved actual false = if leb_ℤ actual reserved then actual else reserved

-- The counter after `t` tokens are given back: the key is deleted where it would fall to 0 or below.
abbrev pub refunded : ℤ → ℤ → ℤ
refunded c t = if leb_ℤ (c -ℤ t) (pos 0) then pos 0 else c -ℤ t

-- The counter after a reservation is settled.
abbrev pub settled : ℤ → ℤ → ℤ
settled c t = if leb_ℤ t (pos 0) then c else refunded c t

settled_all :
    (c reserved : ℤ)
    → pos 0 ≤ℤ c
    → pos 0 ≤ℤ reserved
    → settled (c +ℤ reserved) reserved ≡ c +ℤ pos 0
unfolding ◌+ℤ◌ ◌-ℤ◌
settled_all (pos c) (pos r) hc hr = ground arith
settled_all (negsuc c) r hc hr = absurd (omega arith)
settled_all (pos c) (negsuc r) hc hr = absurd (omega arith)

settled_unused :
    (c reserved actual : ℤ)
    → pos 0 ≤ℤ c
    → pos 0 ≤ℤ reserved
    → pos 0 ≤ℤ actual
    → settled (c +ℤ reserved) (reserved -ℤ actual) ≡ c +ℤ charged reserved actual false
unfolding ◌+ℤ◌ ◌-ℤ◌
settled_unused (pos c) (pos r) (pos a) hc hr ha = ground arith
settled_unused (negsuc c) r a hc hr ha = absurd (omega arith)
settled_unused (pos c) (negsuc r) a hc hr ha = absurd (omega arith)
settled_unused (pos c) (pos r) (negsuc a) hc hr ha = absurd (omega arith)

pub settled-charged :
    (c reserved actual : ℤ) (release_all : Bool)
    → pos 0 ≤ℤ c
    → pos 0 ≤ℤ reserved
    → pos 0 ≤ℤ actual
    → settled (c +ℤ reserved) (tokens_to_release reserved actual release_all)
      ≡ c +ℤ charged reserved actual release_all
unfolding tokens_to_release
settled-charged c reserved actual true hc hr ha = settled_all c reserved hc hr
settled-charged c reserved actual false hc hr ha = settled_unused c reserved actual hc hr ha

rolled_back : (c c' c'' d : ℤ) → c' ≡ c +ℤ d → c'' ≡ c' -ℤ d → c'' ≡ c
rolled_back c c' c'' d e f =
    omega (int_laws, ap pos_part e, ap neg_part e, ap pos_part f, ap neg_part f)

count-set_ttl : (o : Option Entry) → count_of (set_ttl tpm_window_seconds o) ≡ count_of o
count-set_ttl none = refl
count-set_ttl (some e) = refl

module _ {S : Type 0} (redis : RedisLike S) where
  -- A reservation, and its settlement when the request ends.
  pub reserve_and_finalize : ℤ → String → ℤ → ℤ → Bool → Action (Gate S) TokenReservation
  reserve_and_finalize limit k estimated actual release_all = do
    r ← reserve_tokens redis limit k estimated
    finalize redis r actual release_all

module _ {S : Type 0} (redis : RedisLike S) (laws : RedisLaws redis)
    (answers : IsReliable redis) where
  refund-Sets :
      (k : String) (t : ℤ) (w : Gate S)
      → Ends
          (λ _ u. Sets laws k (refunded (count_at laws w k) t) w u)
          (λ _ _. ⊥)
          (refund redis k t w)
  unfolding refund
  refund-Sets k t w =
      Ends-try_except _ _ w
        (Ends-bind (raw_call (redis.decrby k t)) _ w
          (raw_call-Answered laws (redis.decrby k t) k (sub t) (count_at laws w k -ℤ t) w
            (answers.decrby_returns k t w.redis) (laws.decrby_law k t w.redis))
          (λ remaining u h.
            Ends-weaken (delete_if_empty redis k remaining u)
              (delete_if_empty-Sets laws answers k remaining u (ap count_of h.1.0 ∙ sym h.0))
              (λ _ v g. (
                g.0 ∙ ap (λ c. if leb_ℤ c (pos 0) then pos 0 else c) h.0,
                λ j ne. g.1 j ne ∙ h.1.1 j ne,
              ))
              (λ _ _ no. no))
          (λ _ _ no. no))
        (λ _ _ no. absurd no)

  -- The window after `incrby`, and after `expire` where that is called.
  arm_tokens-Sets :
      (k : String) (count estimated : ℤ) (w : Gate S)
      → Ends
          (λ _ u. Sets laws k (count_at laws w k) w u)
          (λ _ _. ⊥)
          (arm_tokens redis k count estimated w)
  unfolding arm_tokens
  arm_tokens-Sets k count estimated w = elim (Bool-cases (eqb_ℤ count estimated)) [
    | inl first ↦ rw first (
        Ends-weaken (redis_call (redis.expire k tpm_window_seconds) w)
          (redis_call-Answered laws (redis.expire k tpm_window_seconds) k
            (set_ttl tpm_window_seconds) tt w (answers.expire_returns k tpm_window_seconds w.redis)
            (laws.expire_law k tpm_window_seconds w.redis))
          (λ _ u h. (ap count_of h.1.0 ∙ count-set_ttl (entry_at laws w k), h.1.1)) (λ _ _ no. no))
    | inr later ↦ rw later (Ends-pure tt _ _ w (refl, λ j _. refl))
  ]

  reject_tokens-Sets :
      (k : String) (d c : ℤ) (w : Gate S)
      → count_at laws w k ≡ c +ℤ d
      → Ends
          (λ _ _. ⊥)
          (λ e u. (e ≡ app token_rate_limit_exceeded) × Sets laws k c w u)
          (reject_tokens redis k d w)
  unfolding reject_tokens
  reject_tokens-Sets k d c w e =
      Ends-then _ _ w
        (Ends-try_except _ _ w
          (Ends-then (raw_call (redis.decrby k d)) _ w
            (raw_call-Answered laws (redis.decrby k d) k (sub d) (count_at laws w k -ℤ d) w
              (answers.decrby_returns k d w.redis) (laws.decrby_law k d w.redis))
            (λ _ v g.
              Ends-pure tt (λ _ v. Sets laws k c w v) (λ _ _. ⊥) v
                (
                  rolled_back c (count_at laws w k) (count_at laws v k) d e (ap count_of g.1.0),
                  g.1.1,
                ))
            (λ _ _ no. no))
          (λ _ _ no. absurd no))
        (λ _ v g. Ends-throw _ _ _ v (refl, g)) (λ _ _ no. absurd no)

  -- `estimated` tokens are reserved within the limit.
  abbrev pub Reserved : ℤ → String → ℤ → Gate S → TokenReservation → Gate S → Type 0
  Reserved limit k estimated w r u =
      (r ≡ reservation k estimated false)
      × Sets laws k (count_at laws w k +ℤ estimated) w u
      × (count_at laws w k +ℤ estimated ≤ℤ limit)

  -- The limit is reached, and every counter is as it was.
  abbrev pub Rejected : ℤ → String → ℤ → Gate S → Exc → Gate S → Type 0
  Rejected limit k estimated w e u =
      (e ≡ app token_rate_limit_exceeded)
      × Sets laws k (count_at laws w k) w u
      × (limit <ℤ count_at laws w k +ℤ estimated)

  pub reserve_tokens-Reserved :
      (limit : ℤ) (k : String) (estimated : ℤ) (w : Gate S)
      → Ends
          (Reserved limit k estimated w)
          (Rejected limit k estimated w)
          (reserve_tokens redis limit k estimated w)
  unfolding reserve_tokens
  reserve_tokens-Reserved limit k estimated w =
      Ends-bind (redis_call (redis.incrby k estimated)) _ w
        (redis_call-Answered laws (redis.incrby k estimated) k (add estimated)
          (count_at laws w k +ℤ estimated) w (answers.incrby_returns k estimated w.redis)
          (laws.incrby_law k estimated w.redis))
        (λ count u h.
          Ends-then (arm_tokens redis k count estimated) _ u (arm_tokens-Sets k count estimated u)
            (λ _ v g. elim (Bool-cases (ltb_ℤ limit count)) [
              | inl over ↦ rw over (
                  Ends-weaken (reject_tokens redis k estimated v)
                    (reject_tokens-Sets k estimated (count_at laws w k) v (g.0 ∙ ap count_of h.1.0))
                    (λ _ _ no. absurd no)
                    (λ _ x r. (
                      r.0,
                      (r.1.0, λ j ne. r.1.1 j ne ∙ g.1 j ne ∙ h.1.1 j ne),
                      subst (λ c. limit <ℤ c) h.0 (over_limit limit count over),
                    )))
              | inr room ↦ rw room (
                  Ends-pure _ _ _ v (
                    refl,
                    (g.0 ∙ ap count_of h.1.0, λ j ne. g.1 j ne ∙ h.1.1 j ne),
                    subst (λ c. c ≤ℤ limit) h.0 (within_limit limit count room),
                  ))
            ])
            (λ _ _ no. absurd no))
        (λ _ _ no. absurd no)

  pub finalize-Sets :
      (k : String) (reserved actual : ℤ) (release_all : Bool) (w : Gate S)
      → Ends
          (λ r u.
            (r ≡ reservation k reserved true)
            × Sets laws k
                (settled (count_at laws w k) (tokens_to_release reserved actual release_all))
                w
                u)
          (λ _ _. ⊥)
          (finalize redis (reservation k reserved false) actual release_all w)
  unfolding finalize
  finalize-Sets k reserved actual release_all w =
      let t = tokens_to_release reserved actual release_all in
      elim (Bool-cases (leb_ℤ t (pos 0))) [
        | inl nothing ↦ rw nothing (Ends-pure _ _ _ w (refl, (refl, λ j _. refl)))
        | inr some_left ↦ rw some_left (
            Ends-then (refund redis k t) _ w (refund-Sets k t w)
              (λ _ u h. Ends-pure _ _ _ u (refl, h)) (λ _ _ no. no))
      ]

  -- A request that is admitted is charged in the end what it has used, at most what it reserved, and
  -- nothing where all is released; one that is rejected is charged nothing.
  pub reserve-finalize-charged :
      (limit : ℤ) (k : String) (estimated actual : ℤ) (release_all : Bool) (w : Gate S)
      → pos 0 ≤ℤ count_at laws w k
      → pos 0 ≤ℤ estimated
      → pos 0 ≤ℤ actual
      → Ends
          (λ _ u. Sets laws k (count_at laws w k +ℤ charged estimated actual release_all) w u)
          (λ e u. (e ≡ app token_rate_limit_exceeded) × Sets laws k (count_at laws w k) w u)
          (reserve_and_finalize redis limit k estimated actual release_all w)
  unfolding reserve_and_finalize
  reserve-finalize-charged limit k estimated actual release_all w hc he ha =
      Ends-bind (reserve_tokens redis limit k estimated) _ w
        (reserve_tokens-Reserved limit k estimated w)
        (λ r u h. rw h.0 (
          Ends-weaken (finalize redis (reservation k estimated false) actual release_all u)
            (finalize-Sets k estimated actual release_all u)
            (λ _ v g. (
              g.1.0
                  ∙ ap (λ c. settled c (tokens_to_release estimated actual release_all)) h.1.0
                  ∙ settled-charged (count_at laws w k) estimated actual release_all hc he ha,
              λ j ne. g.1.1 j ne ∙ h.1.1 j ne,
            ))
            (λ _ _ no. absurd no)))
        (λ e u h. (h.0, h.1))

  -- Once settled, a reservation is not settled again.
  pub finalize_again :
      (k : String) (reserved actual : ℤ) (release_all : Bool) (w : Gate S)
      → finalize redis (reservation k reserved true) actual release_all w
        ≡ (ok (reservation k reserved true), w)
  unfolding finalize pure
  finalize_again k reserved actual release_all w = refl
