-- ===== src/Errors/Keeps.antt =====
-- Calls that keep an invariant of the state, whether they return or raise.
use llm_inference_gpu_server.Common.{⊤}
use llm_inference_gpu_server.Errors.{
  Exc, Result, Action, pure, throw, of_result, ◌>>=◌, ◌>>◌, try_except, try_finally,
}
use llm_inference_gpu_server.Errors.Ends.{
  Ends, Ends-pure, Ends-throw, Ends-bind, Ends-try_except, Ends-try_finally, Ends-of_result,
}

module _ {S : Type 0} (I : S → Type 0) where
  pub record Keeps {A : Type 0} (m : Action S A) : Type 0 where
    pub keeps : (s : S) → I s → Ends (λ _ t. I t) (λ _ t. I t) (m s)

  module _ {A : Type 0} where
    pub Keeps-pure : (a : A) → Keeps (pure a)
    Keeps-pure a = record { keeps = λ s h. Ends-pure a _ _ s h }

    pub Keeps-throw : (e : Exc) → Keeps (throw {A = A} e)
    Keeps-throw e = record { keeps = λ s h. Ends-throw e _ _ s h }

    pub Keeps-of_result : (r : Result A) → Keeps (of_result r)
    Keeps-of_result r = record { keeps = λ s h. Ends-of_result r s (λ _. h) (λ _. h) }

    pub Keeps-try_except :
        (m : Action S A) (handler : Exc → Action S A)
        → Keeps m
        → ((e : Exc) → Keeps (handler e))
        → Keeps (try_except m handler)
    Keeps-try_except m handler h k = record {
      keeps = λ s i. Ends-try_except m handler s (h.keeps s i) (λ e t j. (k e).keeps t j);
    }

  module _ {A B : Type 0} where
    pub Keeps-bind :
        (m : Action S A) (f : A → Action S B) → Keeps m → ((a : A) → Keeps (f a)) → Keeps (m >>= f)
    Keeps-bind m f h k = record {
      keeps = λ s i. Ends-bind m f s (h.keeps s i) (λ a t j. (k a).keeps t j) (λ _ _ j. j);
    }

    pub Keeps-then : (m : Action S A) (k : Action S B) → Keeps m → Keeps k → Keeps (m >> k)
    unfolding ◌>>◌
    Keeps-then m k h g = Keeps-bind m (λ _. k) h (λ _. g)

  module _ {A : Type 0} where
    pub Keeps-try_finally :
        (m : Action S A) (cleanup : Action S ⊤)
        → Keeps m
        → Keeps cleanup
        → Keeps (try_finally m cleanup)
    Keeps-try_finally m cleanup h k = record {
      keeps = λ s i.
          Ends-try_finally m cleanup s (h.keeps s i) (λ _ t j. k.keeps t j) (λ _ t j. k.keeps t j);
    }
