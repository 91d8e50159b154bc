-- ===== src/Errors/Ends.antt =====
-- How a call ends: what holds of its answer and of the state if it returns, and what holds of the
-- exception and of the state if it raises. One rule for each way to build a call.
use llm_inference_gpu_server.Common.{⊤, ◌≡◌, refl, Bool, true, false}
use llm_inference_gpu_server.Errors.{
  Exc, Result, ok, raise, Action, pure, throw, raise_if, ◌>>=◌, ◌>>◌, try_except, try_finally,
  after_finally, of_result,
}

module _ {S A : Type 0} where
  abbrev pub Holds : (A → S → Type 0) → (Exc → S → Type 0) → Result A × S → Type 0
  Holds P R (ok a, s) = P a s
  Holds P R (raise e, s) = R e s

  -- A record, so that `P` and `R` can be read off a statement.
  pub record Ends (P : A → S → Type 0) (R : Exc → S → Type 0) (x : Result A × S) : Type 0 where
    pub holds : Holds P R x

  -- The call does not raise.
  abbrev pub Returns : Result A × S → Type 0
  Returns = Ends (λ _ _. ⊤) (λ _ _. ⊥)

  pub Ends-pure :
      (a : A) (P : A → S → Type 0) (R : Exc → S → Type 0) (s : S) → P a s → Ends P R (pure a s)
  unfolding pure
  Ends-pure a P R s h = record { holds = h }

  pub Ends-throw :
      (e : Exc) (P : A → S → Type 0) (R : Exc → S → Type 0) (s : S) → R e s → Ends P R (throw e s)
  unfolding throw
  Ends-throw e P R s h = record { holds = h }

module _ {S A : Type 0} {P P' : A → S → Type 0} {R R' : Exc → S → Type 0} where
  pub Ends-weaken :
      (x : Result A × S)
      → Ends P R x
      → ((a : A) (s : S) → P a s → P' a s)
      → ((e : Exc) (s : S) → R e s → R' e s)
      → Ends P' R' x
  Ends-weaken (ok a, s) h p r = record { holds = p a s h.holds }
  Ends-weaken (raise e, s) h p r = record { holds = r e s h.holds }

  -- Two facts about one call.
  pub Ends-both :
      (x : Result A × S)
      → Ends P R x
      → Ends P' R' x
      → Ends (λ a s. P a s × P' a s) (λ e s. R e s × R' e s) x
  Ends-both (ok a, s) h k = record { holds = (h.holds, k.holds) }
  Ends-both (raise e, s) h k = record { holds = (h.holds, k.holds) }

module _ {S A : Type 0} {P : A → S → Type 0} {R : Exc → S → Type 0} where
  -- A property of how the call has ended follows from both ways.
  pub Ends-cases :
      (F : Result A × S → Type 0) (x : Result A × S)
      → Ends P R x
      → ((a : A) (s : S) → P a s → F (ok a, s))
      → ((e : Exc) (s : S) → R e s → F (raise e, s))
      → F x
  Ends-cases F (ok a, s) h p r = p a s h.holds
  Ends-cases F (raise e, s) h p r = r e s h.holds

  -- A call that does not raise.
  pub Ends-Returns : (x : Result A × S) → Returns x → Ends P R x → Ends P (λ _ _. ⊥) x
  Ends-Returns (ok a, s) n h = record { holds = h.holds }
  Ends-Returns (raise e, s) n h = record { holds = n.holds }

module _ {S A B : Type 0} {P : A → S → Type 0} {Q : B → S → Type 0} {R R' : Exc → S → Type 0} where
  pub Ends-bind :
      (m : Action S A) (f : A → Action S B) (s : S)
      → Ends P R (m s)
      → ((a : A) (t : S) → P a t → Ends Q R' (f a t))
      → ((e : Exc) (t : S) → R e t → R' e t)
      → Ends Q R' ((m >>= f) s)
  unfolding ◌>>=◌
  Ends-bind m f s h k r = go (m s) h
    where
      go :
          (x : Result A × S)
          → Ends P R x
          → Ends Q R' (let (y, s') = x in elim y [ ok a ↦ f a s' | raise e ↦ (raise e, s') ])
      go (ok a, t) h = k a t h.holds
      go (raise e, t) h = record { holds = r e t h.holds }

  pub Ends-then :
      (m : Action S A) (k : Action S B) (s : S)
      → Ends P R (m s)
      → ((a : A) (t : S) → P a t → Ends Q R' (k t))
      → ((e : Exc) (t : S) → R e t → R' e t)
      → Ends Q R' ((m >> k) s)
  unfolding ◌>>◌
  Ends-then m k s = Ends-bind m (λ _. k) s

module _ {S : Type 0} {P : ⊤ → S → Type 0} {R : Exc → S → Type 0} where
  pub Ends-raise_if :
      (b : Bool) (e : Exc) (s : S)
      → (b ≡ false → P tt s)
      → (b ≡ true → R e s)
      → Ends P R (raise_if b e s)
  unfolding raise_if
  Ends-raise_if true e s h k = record { holds = k refl }
  Ends-raise_if false e s h k = record { holds = h refl }

module _ {S A : Type 0} {P : A → S → Type 0} {R R' : Exc → S → Type 0} where
  pub Ends-try_except :
      (m : Action S A) (handler : Exc → Action S A) (s : S)
      → Ends P R (m s)
      → ((e : Exc) (t : S) → R e t → Ends P R' (handler e t))
      → Ends P R' (try_except m handler s)
  unfolding try_except
  Ends-try_except m handler s h k = go (m s) h
    where
      go :
          (x : Result A × S)
          → Ends P R x
          → Ends P R' (let (y, s') = x in elim y [ ok a ↦ (ok a, s') | raise e ↦ handler e s' ])
      go (ok a, t) h = record { holds = h.holds }
      go (raise e, t) h = k e t h.holds

module _ {S A : Type 0} {P P' : A → S → Type 0} {R R' : Exc → S → Type 0} where
  pub Ends-try_finally :
      (m : Action S A) (cleanup : Action S ⊤) (s : S)
      → Ends P R (m s)
      → ((a : A) (t : S) → P a t → Ends (λ _ u. P' a u) R' (cleanup t))
      → ((e : Exc) (t : S) → R e t → Ends (λ _ u. R' e u) R' (cleanup t))
      → Ends P' R' (try_finally m cleanup s)
  unfolding try_finally
  Ends-try_finally m cleanup s h k l = go (m s) h
    where
      last :
          (r : Result A) (x : Result ⊤ × S)
          → Ends (λ _ u. Holds P' R' (r, u)) R' x
          → Ends P' R' (after_finally r x)
      last r (ok _, u) g = record { holds = g.holds }
      last r (raise e, u) g = record { holds = g.holds }

      go :
          (x : Result A × S)
          → Ends P R x
          → Ends P' R' (let (r, s') = x in after_finally r (cleanup s'))
      go (ok a, t) h = last (ok a) (cleanup t) (k a t h.holds)
      go (raise e, t) h = last (raise e) (cleanup t) (l e t h.holds)

module _ {S A : Type 0} {P : A → S → Type 0} {R : Exc → S → Type 0} where
  pub Ends-of_result :
      (r : Result A) (s : S) → ((a : A) → P a s) → ((e : Exc) → R e s) → Ends P R (of_result r s)
  unfolding of_result
  Ends-of_result (ok a) s h k = record { holds = h a }
  Ends-of_result (raise e) s h k = record { holds = k e }

-- Of any call nothing need be known.
pub Ends-any : {S A : Type 0} (x : Result A × S) → Ends (λ _ _. ⊤) (λ _ _. ⊤) x
Ends-any (ok a, s) = record { holds = tt }
Ends-any (raise e, s) = record { holds = tt }
