-- ===== src/Errors/Runs.antt =====
-- Runs whose outcome is known.
use llm_inference_gpu_server.Common.{⊤, ◌≡◌, ap, ◌∙◌}
use llm_inference_gpu_server.Errors.{ok, raise, Action, ◌>>=◌, try_finally, after_finally}

module _ {S A B : Type 0} where
  pub bind-ok :
      (m : Action S A) (f : A → Action S B) (s t : S) (a : A)
      → m s ≡ (ok a, t)
      → (m >>= f) s ≡ f a t
  unfolding ◌>>=◌
  bind-ok m f s t a h =
      ap (λ x. let (r, u) = x in elim r [ ok b ↦ f b u | raise e ↦ (raise e, u) ]) h

module _ {S A : Type 0} where
  pub try_finally-ok :
      (m : Action S A) (cleanup : Action S ⊤) (s t u : S) (a : A)
      → m s ≡ (ok a, t)
      → cleanup t ≡ (ok tt, u)
      → try_finally m cleanup s ≡ (ok a, u)
  unfolding try_finally
  try_finally-ok m cleanup s t u a h k =
      ap (λ x. let (r, v) = x in after_finally r (cleanup v)) h ∙ ap (after_finally (ok a)) k
