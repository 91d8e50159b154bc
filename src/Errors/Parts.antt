-- ===== src/Errors/Parts.antt =====
-- Two components, each with its own state: a call of one leaves the state of the other.
use llm_inference_gpu_server.Common.{◌≡◌, refl}
use llm_inference_gpu_server.Errors.{Exc, Result, ok, raise, Action}
use llm_inference_gpu_server.Errors.Ends.{Ends}

module _ {S T X : Type 0} where
  unfoldable pub on_first : Action S X → Action (S × T) X
  on_first m (s, t) = let (r, s') = m s in (r, (s', t))

  unfoldable pub on_second : Action T X → Action (S × T) X
  on_second m (s, t) = let (r, t') = m t in (r, (s, t'))

  module _ {P : X → S → Type 0} {R : Exc → S → Type 0} where
    pub Ends-on_first :
        (m : Action S X) (s : S) (t : T)
        → Ends P R (m s)
        → Ends (λ x w. P x w.0 × (w.1 ≡ t)) (λ e w. R e w.0 × (w.1 ≡ t)) (on_first m (s, t))
    unfolding on_first
    Ends-on_first m s t h = go (m s) h
      where
        go :
            (x : Result X × S)
            → Ends P R x
            → Ends {S = S × T}
                (λ x w. P x w.0 × (w.1 ≡ t))
                (λ e w. R e w.0 × (w.1 ≡ t))
                (let (r, s') = x in (r, (s', t)))
        go (ok a, s) h = record { holds = (h.holds, refl) }
        go (raise e, s) h = record { holds = (h.holds, refl) }

  module _ {P : X → T → Type 0} {R : Exc → T → Type 0} where
    pub Ends-on_second :
        (m : Action T X) (s : S) (t : T)
        → Ends P R (m t)
        → Ends (λ x w. P x w.1 × (w.0 ≡ s)) (λ e w. R e w.1 × (w.0 ≡ s)) (on_second m (s, t))
    unfolding on_second
    Ends-on_second m s t h = go (m t) h
      where
        go :
            (x : Result X × T)
            → Ends P R x
            → Ends {S = S × T}
                (λ x w. P x w.1 × (w.0 ≡ s))
                (λ e w. R e w.1 × (w.0 ≡ s))
                (let (r, t') = x in (r, (s, t')))
        go (ok a, t) h = record { holds = (h.holds, refl) }
        go (raise e, t) h = record { holds = (h.holds, refl) }
