-- ===== src/RateLimit/Limiter/Calls.antt =====
-- A command through `_redis_call` does to the counters what the command does.
use llm_inference_gpu_server.Common.{
  String, ◌≡◌, ◌≢◌, refl, ap, inl, inr, Option, Bool-cases, if◌then◌else◌,
}
use llm_inference_gpu_server.Common.Int.{ℤ, pos, leb_ℤ}
use llm_inference_gpu_server.Errors.{app, other, Result, ok, raise, Action}
use llm_inference_gpu_server.Errors.Ends.{Ends, Ends-pure, Ends-weaken, Ends-Returns, Returns}
use llm_inference_gpu_server.Redis.{
  RedisLike, RedisLaws, IsReliable, Entry, gone, count_of, Changed, Carried,
}
use llm_inference_gpu_server.RateLimit.Limiter.{
  Gate, redis_outcome, redis_call, raw_call, delete_if_empty,
}

-- The counter at a key.
abbrev pub entry_at :
    {S : Type 0} {redis : RedisLike S} → RedisLaws redis → Gate S → String → Option Entry
entry_at laws w = laws.entry w.redis

-- The value of the counter at a key.
abbrev pub count_at : {S : Type 0} {redis : RedisLike S} → RedisLaws redis → Gate S → String → ℤ
count_at laws w k = count_of (entry_at laws w k)

-- The counter at `k` is now `c`, and no other key has changed.
abbrev pub Sets :
    {S : Type 0} {redis : RedisLike S} → RedisLaws redis → String → ℤ → Gate S → Gate S → Type 0
Sets laws k c w u =
    (count_at laws u k ≡ c) × ((j : String) → j ≢ k → entry_at laws u j ≡ entry_at laws w j)

-- No counter has changed.
abbrev pub Unmoved : {S : Type 0} {redis : RedisLike S} → RedisLaws redis → Gate S → Gate S → Type 0
Unmoved laws w u = (j : String) → entry_at laws u j ≡ entry_at laws w j

module _ {S A : Type 0} {redis : RedisLike S} (laws : RedisLaws redis) where
  redis_outcome-Ends :
      (w : Gate S) {P : A → S → Type 0} {R : S → Type 0} (x : Result A × S)
      → Ends P (λ _ s. R s) x
      → Ends (λ a u. P a u.redis) (λ _ u. R u.redis) (redis_outcome w x)
  redis_outcome-Ends w (ok a, s) h = record { holds = h.holds }
  redis_outcome-Ends w (raise (app e), s) h = record { holds = h.holds }
  redis_outcome-Ends w (raise (other c t), s) h = record { holds = h.holds }

  pub redis_call-Ends :
      (m : Action S A) (w : Gate S) {P : A → S → Type 0} {R : S → Type 0}
      → Ends P (λ _ s. R s) (m w.redis)
      → Ends (λ a u. P a u.redis) (λ _ u. R u.redis) (redis_call m w)
  unfolding redis_call
  redis_call-Ends m w h = redis_outcome-Ends w (m w.redis) h

  pub redis_call-Carried :
      (m : Action S A) (k : String) (f : Option Entry → Option Entry) (a : A) (w : Gate S)
      → Carried laws.entry k f a w.redis (m w.redis)
      → Carried (entry_at laws) k f a w (redis_call m w)
  redis_call-Carried m k f a w h = redis_call-Ends m w h

  -- Where Redis does not raise, no such call does.
  pub redis_call-Answered :
      (m : Action S A) (k : String) (f : Option Entry → Option Entry) (a : A) (w : Gate S)
      → Returns (m w.redis)
      → Carried laws.entry k f a w.redis (m w.redis)
      → Ends (λ b u. (b ≡ a) × Changed (entry_at laws) k f w u) (λ _ _. ⊥) (redis_call m w)
  redis_call-Answered m k f a w n h = redis_call-Ends m w (Ends-Returns (m w.redis) n h)

  pub raw_call-Answered :
      (m : Action S A) (k : String) (f : Option Entry → Option Entry) (a : A) (w : Gate S)
      → Returns (m w.redis)
      → Carried laws.entry k f a w.redis (m w.redis)
      → Ends (λ b u. (b ≡ a) × Changed (entry_at laws) k f w u) (λ _ _. ⊥) (raw_call m w)
  unfolding raw_call
  raw_call-Answered m k f a w n h = go (m w.redis) (Ends-Returns (m w.redis) n h)
    where
      go :
          (x : Result A × S)
          → Ends (λ b t. (b ≡ a) × Changed laws.entry k f w.redis t) (λ _ _. ⊥) x
          → Ends
              (λ b u. (b ≡ a) × Changed (entry_at laws) k f w u)
              (λ _ _. ⊥)
              (let (r, s) = x in (r, record w { redis = s }))
      go (ok b, s) g = record { holds = g.holds }
      go (raise e, s) g = record { holds = g.holds }

-- The key is deleted where the counter has fallen to 0 or below.
module _ {S : Type 0} {redis : RedisLike S} (laws : RedisLaws redis)
    (answers : IsReliable redis) where
  pub delete_if_empty-Sets :
      (k : String) (remaining : ℤ) (w : Gate S)
      → count_at laws w k ≡ remaining
      → Ends
          (λ _ u. Sets laws k (if leb_ℤ remaining (pos 0) then pos 0 else remaining) w u)
          (λ _ _. ⊥)
          (delete_if_empty redis k remaining w)
  unfolding delete_if_empty
  delete_if_empty-Sets k remaining w e = elim (Bool-cases (leb_ℤ remaining (pos 0))) [
    | inl empty ↦ rw empty (
        Ends-weaken (raw_call (redis.delete k) w)
          (raw_call-Answered laws (redis.delete k) k gone tt w (answers.delete_returns k w.redis)
            (laws.delete_law k w.redis))
          (λ _ u h. (ap count_of h.1.0, h.1.1)) (λ _ _ h. h))
    | inr more ↦ rw more (Ends-pure tt _ _ w (e, λ j _. refl))
  ]
