-- ===== src/Redis/Memory.antt =====
-- A server in memory that always answers: what the laws of Redis ask for can be had. The commands
-- on lists serve the batch queue.
use llm_inference_gpu_server.Common.{
  String, ◌≡◌, ◌≢◌, refl, Option, none, some, List, [], ◌∷◌, ◌++◌, if◌then◌else◌, str_eq,
  str_eq_refl, str_eq_ne,
}
use llm_inference_gpu_server.Common.Int.{pos, ◌+ℤ◌, ◌-ℤ◌}
use llm_inference_gpu_server.Errors.{ok}
use llm_inference_gpu_server.Redis.{
  RedisLike, RedisLaws, IsReliable, Entry, count_of, add, sub, set_ttl, gone, Changed,
  RedisListLaws, Popped,
}

pub record Memory : Type 0 where
  pub counters : String → Option Entry
  pub texts : String → Option String
  pub lists : String → List String

-- The function `f`, but `x` at `k`.
abbrev pub update : {A : Type 0} → (String → A) → String → A → String → A
update f k x j = if str_eq j k then x else f j

update_self : {A : Type 0} (f : String → A) (k : String) (x : A) → update f k x k ≡ x
update_self f k x = rw str_eq_refl refl

update_ne :
    {A : Type 0} (f : String → A) (k : String) (x : A) (j : String) → j ≢ k → update f k x j ≡ f j
update_ne f k x j h = rw (str_eq_ne j k h) refl

abbrev pub write : (Option Entry → Option Entry) → String → Memory → Memory
write f k s = record s { counters = update s.counters k (f (s.counters k)) }

abbrev pub push : String → String → Memory → Memory
push k v s = record s { lists = update s.lists k (s.lists k ++ (v ∷ [])) }

abbrev pub head_of : List String → Option String
head_of [] = none
head_of (x ∷ xs) = some x

abbrev pub rest_of : List String → List String
rest_of [] = []
rest_of (x ∷ xs) = xs

abbrev pub memory_redis : RedisLike Memory
memory_redis = record {
  get = λ k s. (ok (s.texts k), s);
  incr = λ k s. (ok (count_of (s.counters k) +ℤ pos 1), write (add (pos 1)) k s);
  incrby = λ k d s. (ok (count_of (s.counters k) +ℤ d), write (add d) k s);
  decr = λ k s. (ok (count_of (s.counters k) -ℤ pos 1), write (sub (pos 1)) k s);
  decrby = λ k d s. (ok (count_of (s.counters k) -ℤ d), write (sub d) k s);
  expire = λ k t s. (ok tt, write (set_ttl t) k s);
  delete = λ k s. (ok tt, write gone k s);
  rpush = λ k v s. (ok tt, push k v s);
  lpop = λ k s.
      (ok (head_of (s.lists k)), record s { lists = update s.lists k (rest_of (s.lists k)) });
  lrange = λ k _ _ s. (ok (s.lists k), s);
}

pub write-Changed :
    (f : Option Entry → Option Entry) (k : String) (s : Memory)
    → Changed (λ (t : Memory). t.counters) k f s (write f k s)
write-Changed f k s =
    (update_self s.counters k (f (s.counters k)), update_ne s.counters k (f (s.counters k)))

abbrev pub memory_laws : RedisLaws memory_redis
memory_laws = record {
  entry = λ s. s.counters;
  get_law = λ k s. record { holds = (refl, λ j _. refl) };
  incr_law = λ k s. record { holds = (refl, write-Changed (add (pos 1)) k s) };
  incrby_law = λ k d s. record { holds = (refl, write-Changed (add d) k s) };
  decr_law = λ k s. record { holds = (refl, write-Changed (sub (pos 1)) k s) };
  decrby_law = λ k d s. record { holds = (refl, write-Changed (sub d) k s) };
  expire_law = λ k t s. record { holds = (refl, write-Changed (set_ttl t) k s) };
  delete_law = λ k s. record { holds = (refl, write-Changed gone k s) };
}

abbrev pub memory_answers : IsReliable memory_redis
memory_answers = record {
  get_returns = λ k s. record { holds = tt };
  incr_returns = λ k s. record { holds = tt };
  incrby_returns = λ k d s. record { holds = tt };
  decr_returns = λ k s. record { holds = tt };
  decrby_returns = λ k d s. record { holds = tt };
  expire_returns = λ k t s. record { holds = tt };
  delete_returns = λ k s. record { holds = tt };
}

abbrev pub empty_memory : Memory
empty_memory = record { counters = λ _. none; texts = λ _. none; lists = λ _. [] }

pub push_list : (k v : String) (s : Memory) → (push k v s).lists k ≡ s.lists k ++ v ∷ []
push_list k v s = update_self s.lists k (s.lists k ++ v ∷ [])

pub pop_list :
    (k : String) (s : Memory)
    → Popped (s.lists k) (head_of (s.lists k)) (update s.lists k (rest_of (s.lists k)) k)
pop_list k s = rw update_self (go (s.lists k))
  where
    go : (xs : List String) → Popped xs (head_of xs) (rest_of xs)
    go [] = (refl, refl)
    go (x ∷ xs) = refl

abbrev pub memory_list_laws : RedisListLaws memory_redis
memory_list_laws = record {
  list = λ s. s.lists;
  rpush_law = λ k v s. record { holds = push_list k v s };
  lpop_law = λ k s. record { holds = pop_list k s };
  lrange_law = λ k s. record { holds = (refl, refl) };
}
