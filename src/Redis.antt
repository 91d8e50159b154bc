-- ===== src/Redis.antt =====
-- The commands of Redis that the gateway calls (backend/db/redis.py), over an abstract state `S` of
-- the server. Redis itself is not part of the repository: `RedisLaws` states what its documentation
-- says of the commands, for one client and a moment in which no key expires.
pub mod Memory
use llm_inference_gpu_server.Common.{
  ℕ, ⊤, String, ◌≡◌, ◌≢◌, ◌⊎◌, Option, none, some, List, [], ◌∷◌, ◌++◌,
}
use llm_inference_gpu_server.Common.Int.{ℤ, pos, negsuc, ◌+ℤ◌, ◌-ℤ◌}
use llm_inference_gpu_server.Errors.{Result, Action}
use llm_inference_gpu_server.Errors.Ends.{Ends, Returns}

-- `RedisLike`
pub record RedisLike (S : Type 0) : Type 0 where
  pub get : String → Action S (Option String)
  pub incr : String → Action S ℤ
  pub incrby : String → ℤ → Action S ℤ
  pub decr : String → Action S ℤ
  pub decrby : String → ℤ → Action S ℤ
  pub expire : String → ℕ → Action S ⊤
  pub delete : String → Action S ⊤
  pub rpush : String → String → Action S ⊤
  pub lpop : String → Action S (Option String)
  pub lrange : String → ℤ → ℤ → Action S (List String)

-- A counter: its value, and the seconds after which it expires.
pub record Entry : Type 0 where
  pub count : ℤ
  pub ttl : Option ℕ

-- A key that is absent counts as 0.
abbrev pub count_of : Option Entry → ℤ
count_of none = pos 0
count_of (some e) = e.count

abbrev pub ttl_of : Option Entry → Option ℕ
ttl_of none = none
ttl_of (some e) = e.ttl

-- INCRBY keeps the expiry, and makes the key if it is absent.
abbrev pub add : ℤ → Option Entry → Option Entry
add d o = some (record { count = count_of o +ℤ d; ttl = ttl_of o })

abbrev pub sub : ℤ → Option Entry → Option Entry
sub d o = some (record { count = count_of o -ℤ d; ttl = ttl_of o })

-- EXPIRE sets the expiry of a key that is there.
abbrev pub set_ttl : ℕ → Option Entry → Option Entry
set_ttl t none = none
set_ttl t (some e) = some (record { count = e.count; ttl = some t })

abbrev pub gone : Option Entry → Option Entry
gone _ = none

abbrev pub same : Option Entry → Option Entry
same o = o

module _ {S : Type 0} (entry : S → String → Option Entry) where
  -- `f` has been applied at the key `k`, and no other key has changed.
  abbrev pub Changed : String → (Option Entry → Option Entry) → S → S → Type 0
  Changed k f s t = (entry t k ≡ f (entry s k)) × ((j : String) → j ≢ k → entry t j ≡ entry s j)

  -- A command that is answered, by `a`, has been carried out. One that raises may have been
  -- carried out or not: the connection can break before the command or before the answer.
  abbrev pub Carried :
      {A : Type 0} → String → (Option Entry → Option Entry) → A → S → Result A × S → Type 0
  Carried k f a s =
      Ends (λ b t. (b ≡ a) × Changed k f s t) (λ _ t. Changed k f s t ⊎ Changed k same s t)

pub record RedisLaws {S : Type 0} (r : RedisLike S) : Type 0 where
  pub entry : S → String → Option Entry
  pub get_law :
      (k : String) (s : S)
      → Ends (λ _ t. Changed entry k same s t) (λ _ t. Changed entry k same s t) (r.get k s)
  pub incr_law :
      (k : String) (s : S)
      → Carried entry k (add (pos 1)) (count_of (entry s k) +ℤ pos 1) s (r.incr k s)
  pub incrby_law :
      (k : String) (d : ℤ) (s : S)
      → Carried entry k (add d) (count_of (entry s k) +ℤ d) s (r.incrby k d s)
  pub decr_law :
      (k : String) (s : S)
      → Carried entry k (sub (pos 1)) (count_of (entry s k) -ℤ pos 1) s (r.decr k s)
  pub decrby_law :
      (k : String) (d : ℤ) (s : S)
      → Carried entry k (sub d) (count_of (entry s k) -ℤ d) s (r.decrby k d s)
  pub expire_law : (k : String) (n : ℕ) (s : S) → Carried entry k (set_ttl n) tt s (r.expire k n s)
  pub delete_law : (k : String) (s : S) → Carried entry k gone tt s (r.delete k s)

-- No command on a counter raises.
pub record IsReliable {S : Type 0} (r : RedisLike S) : Type 0 where
  pub get_returns : (k : String) (s : S) → Returns (r.get k s)
  pub incr_returns : (k : String) (s : S) → Returns (r.incr k s)
  pub incrby_returns : (k : String) (d : ℤ) (s : S) → Returns (r.incrby k d s)
  pub decr_returns : (k : String) (s : S) → Returns (r.decr k s)
  pub decrby_returns : (k : String) (d : ℤ) (s : S) → Returns (r.decrby k d s)
  pub expire_returns : (k : String) (n : ℕ) (s : S) → Returns (r.expire k n s)
  pub delete_returns : (k : String) (s : S) → Returns (r.delete k s)

-- What LPOP answers, and what it leaves.
abbrev pub Popped : List String → Option String → List String → Type 0
Popped before none after = (before ≡ []) × (after ≡ [])
Popped before (some value) after = before ≡ value ∷ after

-- What the commands on lists do: a list that is absent is empty.
pub record RedisListLaws {S : Type 0} (r : RedisLike S) : Type 0 where
  pub list : S → String → List String
  pub rpush_law :
      (k v : String) (s : S)
      → Ends
          (λ _ t. list t k ≡ list s k ++ v ∷ [])
          (λ _ t. (list t k ≡ list s k ++ v ∷ []) ⊎ (list t k ≡ list s k))
          (r.rpush k v s)
  pub lpop_law :
      (k : String) (s : S)
      → Ends
          (λ o t. Popped (list s k) o (list t k))
          (λ _ t. ((o : Option String) × Popped (list s k) o (list t k)) ⊎ (list t k ≡ list s k))
          (r.lpop k s)
  -- The whole list is the range from 0 to -1.
  pub lrange_law :
      (k : String) (s : S)
      → Ends
          (λ values t. (values ≡ list s k) × (list t k ≡ list s k))
          (λ _ t. list t k ≡ list s k)
          (r.lrange k (pos 0) (negsuc 0) s)
