-- ===== src/RateLimit/Concurrency/Pool.antt =====
-- Any sequence of acquisitions and releases of one API key, one operation after the other: the
-- counter in Redis is the number of slots that are held, and stays within the limit.
use llm_inference_gpu_server.Common.{
  ⊤, ℕ, suc, zero, ◌+◌, String, ◌≡◌, refl, ap, subst, ◌∙◌, inl, inr, ◌⊎◌, true, false,
  if◌then◌else◌, Option, none, some, List, [], ◌∷◌, arith, Bool-cases, Option-cases, get_elem?, set,
}
use llm_inference_gpu_server.Common.Int.{ℤ, pos, ◌+ℤ◌, ◌-ℤ◌, ◌≤ℤ◌}
use llm_inference_gpu_server.Errors.{Result, ok, raise}
use llm_inference_gpu_server.Errors.Ends.{Ends-cases}
use llm_inference_gpu_server.Redis.{RedisLike, RedisLaws, IsReliable}
use llm_inference_gpu_server.RateLimit.Limiter.{Gate}
use llm_inference_gpu_server.RateLimit.Limiter.Calls.{count_at, Sets}
use llm_inference_gpu_server.RateLimit.Concurrency.{
  concurrency_key, ConcurrencyLease, acquire, release,
}
use llm_inference_gpu_server.RateLimit.Concurrency.Slots.{
  Took, freed, acquire-Sets, release-Sets, release_again,
}

-- `give i` releases the lease at position `i`, a second time as well.
pub data SlotOp : Type 0 where
  take_slot : SlotOp
  give_slot : ℕ → SlotOp

-- The slots that are held.
unfoldable pub held : List ConcurrencyLease → ℕ
held [] = 0
held (l ∷ ls) = (if l.released then 0 else 1) + held ls

abbrev pub AllKey : String → List ConcurrencyLease → Type 0
AllKey k [] = ⊤
AllKey k (l ∷ ls) = (l.key ≡ k) × AllKey k ls

key_at :
    (k : String) (ls : List ConcurrencyLease) (i : ℕ) (l : ConcurrencyLease)
    → AllKey k ls
    → get_elem? ls i ≡ some l
    → l.key ≡ k
key_at k [] i l h e = cc
key_at k (x ∷ ls) zero l h e = ground (arith, h.0)
key_at k (x ∷ ls) (suc i) l h e = key_at k ls i l h.1 e

AllKey-set :
    (k : String) (ls : List ConcurrencyLease) (i : ℕ) (l : ConcurrencyLease)
    → AllKey k ls
    → l.key ≡ k
    → AllKey k (set ls i l)
AllKey-set k [] i l h e = tt
AllKey-set k (x ∷ ls) zero l h e = (e, h.1)
AllKey-set k (x ∷ ls) (suc i) l h e = (h.0, AllKey-set k ls i l h.1 e)

held-set :
    (ls : List ConcurrencyLease) (i : ℕ) (l m : ConcurrencyLease)
    → get_elem? ls i ≡ some l
    → l.released ≡ false
    → m.released ≡ true
    → held ls ≡ suc (held (set ls i m))
unfolding held
held-set [] i l m e f t = cc
held-set (x ∷ ls) zero l m e f t = ground (arith, e, f, t)
held-set (x ∷ ls) (suc i) l m e f t = ground (arith, held-set ls i l m e f t)

held-set_same :
    (ls : List ConcurrencyLease) (i : ℕ) (l : ConcurrencyLease)
    → get_elem? ls i ≡ some l
    → set ls i l ≡ ls
held-set_same [] i l e = refl
held-set_same (x ∷ ls) zero l e = ground (arith, e)
held-set_same (x ∷ ls) (suc i) l e = ap (λ ys. x ∷ ys) (held-set_same ls i l e)

freed_pos : (h : ℕ) (c : ℤ) → c ≡ pos (suc h) → freed c ≡ pos h
unfolding ◌-ℤ◌
freed_pos h c e = ground (arith, e)

fewer : (a b : ℕ) (limit : ℤ) → a ≡ suc b → (a ≡ 0) ⊎ (pos a ≤ℤ limit) → (b ≡ 0) ⊎ (pos b ≤ℤ limit)
fewer a b limit e h = ground arith

taken : (h : ℕ) (c c' : ℤ) → c ≡ pos h → c' ≡ c +ℤ pos 1 → c' ≡ pos (1 + h)
unfolding ◌+ℤ◌
taken h c c' e f = ground (arith, e, f)

module _ {S : Type 0} (redis : RedisLike S) (id : String) (limit : ℤ) where
  abbrev pub Pool : Type 0
  Pool = Gate S × List ConcurrencyLease

  after_take : List ConcurrencyLease → Result ConcurrencyLease × Gate S → Pool
  after_take ls (ok l, u) = (u, l ∷ ls)
  after_take ls (raise _, u) = (u, ls)

  after_give : List ConcurrencyLease → ℕ → Result ConcurrencyLease × Gate S → Pool
  after_give ls i (ok l, u) = (u, set ls i l)
  after_give ls i (raise _, u) = (u, ls)

  give_at : List ConcurrencyLease → ℕ → Option ConcurrencyLease → Gate S → Pool
  give_at ls i none w = (w, ls)
  give_at ls i (some l) w = after_give ls i (release redis l w)

  run_op : SlotOp → Pool → Pool
  run_op take_slot (w, ls) = after_take ls (acquire redis id limit w)
  run_op (give_slot i) (w, ls) = give_at ls i (get_elem? ls i) w

  pub run_ops : List SlotOp → Pool → Pool
  run_ops [] p = p
  run_ops (op ∷ ops) p = run_ops ops (run_op op p)

-- The counter is the number of held slots, which is within the limit.
abbrev pub IsAccounted :
    {S : Type 0} (redis : RedisLike S) (laws : RedisLaws redis)
    → String
    → ℤ
    → Gate S
    → List ConcurrencyLease
    → Type 0
IsAccounted redis laws id limit w ls =
    (count_at laws w (concurrency_key id) ≡ pos (held ls))
    × AllKey (concurrency_key id) ls
    × ((held ls ≡ 0) ⊎ (pos (held ls) ≤ℤ limit))

module _ {S : Type 0} (redis : RedisLike S) (laws : RedisLaws redis) (answers : IsReliable redis)
    (id : String) (limit : ℤ) where
  abbrev Accounted : Gate S × List ConcurrencyLease → Type 0
  Accounted p = IsAccounted redis laws id limit p.0 p.1

  took :
      (w u : Gate S) (ls : List ConcurrencyLease) (l : ConcurrencyLease)
      → Accounted (w, ls)
      → Took redis laws (concurrency_key id) limit w l u
      → Accounted (u, l ∷ ls)
  unfolding held
  took w u ls l h g = rw g.0 (
    taken (held ls) _ _ h.0 g.1.0,
    (refl, h.1),
    inr (subst (λ c. c ≤ℤ limit) (taken (held ls) _ _ h.0 refl) g.2),
  )

  refused :
      (w u : Gate S) (ls : List ConcurrencyLease)
      → Accounted (w, ls)
      → Sets laws (concurrency_key id) (count_at laws w (concurrency_key id)) w u
      → Accounted (u, ls)
  refused w u ls h g = (g.0 ∙ h.0, h.1, h.2)

  take-Accounted :
      (w : Gate S) (ls : List ConcurrencyLease)
      → Accounted (w, ls)
      → Accounted (after_take redis id limit ls (acquire redis id limit w))
  unfolding after_take
  take-Accounted w ls h =
      Ends-cases (λ x. Accounted (after_take redis id limit ls x)) (acquire redis id limit w)
        (acquire-Sets redis laws answers id limit w) (λ l u g. took w u ls l h g)
        (λ e u g. refused w u ls h g.1)

  gave :
      (w u : Gate S) (ls : List ConcurrencyLease) (i : ℕ) (l m : ConcurrencyLease)
      → Accounted (w, ls)
      → get_elem? ls i ≡ some l
      → l.released ≡ false
      → (m ≡ record { key = l.key; released = true })
        × Sets laws l.key (freed (count_at laws w l.key)) w u
      → Accounted (u, set ls i m)
  gave w u ls i l m h at open_ g =
      let less = held-set ls i l m at open_ (ap (λ (x : ConcurrencyLease). x.released) g.0) in
      let key = key_at (concurrency_key id) ls i l h.1 at in
      let sets = subst (λ k. Sets laws k (freed (count_at laws w k)) w u) key g.1 in
      (
        sets.0 ∙ freed_pos (held (set ls i m)) _ (h.0 ∙ ap pos less),
        AllKey-set (concurrency_key id) ls i m h.1 (ap (λ (x : ConcurrencyLease). x.key) g.0 ∙ key),
        fewer (held ls) (held (set ls i m)) limit less h.2,
      )

  give-Accounted :
      (w : Gate S) (ls : List ConcurrencyLease) (i : ℕ) (l : ConcurrencyLease)
      → Accounted (w, ls)
      → get_elem? ls i ≡ some l
      → Accounted (after_give redis id limit ls i (release redis l w))
  unfolding after_give
  give-Accounted w ls i l h at = elim (Bool-cases l.released) [
    | inl done ↦ rw (release_again redis laws l w done, held-set_same ls i l at) h
    | inr open_ ↦
        Ends-cases (λ x. Accounted (after_give redis id limit ls i x)) (release redis l w)
          (release-Sets redis laws answers l w open_) (λ m u g. gave w u ls i l m h at open_ g)
          (λ _ _ no. absurd no)
  ]

  run_op-Accounted :
      (op : SlotOp) (p : Gate S × List ConcurrencyLease)
      → Accounted p
      → Accounted (run_op redis id limit op p)
  unfolding run_op give_at
  run_op-Accounted take_slot (w, ls) h = take-Accounted w ls h
  run_op-Accounted (give_slot i) (w, ls) h = elim (Option-cases (get_elem? ls i)) [
    | inl out ↦ rw out h
    | inr (l, at) ↦ rw at (give-Accounted w ls i l h at)
  ]

  -- Whatever the requests of an API key do, one operation after the other and with Redis answering:
  -- the counter is the number of slots that are held, and no more are held than the limit allows.
  pub run_ops-Accounted :
      (ops : List SlotOp) (p : Gate S × List ConcurrencyLease)
      → Accounted p
      → Accounted (run_ops redis id limit ops p)
  unfolding run_ops
  run_ops-Accounted [] p h = h
  run_ops-Accounted (op ∷ ops) p h =
      run_ops-Accounted ops (run_op redis id limit op p) (run_op-Accounted op p h)
