-- ===== src/Inference/Ports.antt =====
-- What the request handlers call: the admission, the audit, the engine and the analytics, as the
-- protocols of backend/api/routes/chat_completions.py and backend/services/batch/batch_worker.py
-- state them, and what of their calls is counted.
use llm_inference_gpu_server.Common.{⊤, ℕ, ◌+◌, String, ◌≡◌, refl, ◌∙◌, Bool}
use llm_inference_gpu_server.Common.Int.{ℤ}
use llm_inference_gpu_server.Errors.{
  Exc, Result, ok, raise, Action, pure, throw, of_result, ◌>>=◌, ◌>>◌, try_except,
}
use llm_inference_gpu_server.Errors.Ends.{
  Ends, Ends-pure, Ends-bind, Ends-weaken, Ends-try_except, Ends-throw, Ends-of_result,
}
use llm_inference_gpu_server.Errors.Parts.{on_first, on_second, Ends-on_second}
use llm_inference_gpu_server.Json.{Fields}
use llm_inference_gpu_server.Auth.{AuthContext}
use llm_inference_gpu_server.Analytics.Event.{AnalyticsEvent}
use llm_inference_gpu_server.Inference.Audit.{AuditStart, AuditFinal}

-- `AdmissionController` with the leases `L` that it gives out, `RequestAuditController`, the client
-- of the engine, `AnalyticsCollectorController`, and the clock: the milliseconds since the start of
-- the request and the time in microseconds.
pub record Ports (S L : Type 0) : Type 0 where
  pub admit : AuthContext → ℤ → Action S L
  pub finalize_tokens : L → ℤ → Bool → Action S ⊤
  pub release : L → Action S ⊤
  pub start_audit : AuditStart → Action S String
  pub finalize_audit : AuditFinal → Action S ⊤
  pub create_chat_completion : Fields → Action S Fields
  pub collect : AnalyticsEvent → Action S Bool
  pub elapsed_ms : Action S ℤ
  pub utc_now : Action S ℤ

module _ {S : Type 0} (admits releases : S → ℕ) where
  -- The calls of `admit` that have returned, and the calls of `release`.
  abbrev pub Same : S → S → Type 0
  Same s t = (admits t ≡ admits s) × (releases t ≡ releases s)

  -- The call admits and releases nothing.
  pub record Quiet {A : Type 0} (m : Action S A) : Type 0 where
    pub ends : (s : S) → Ends (λ _ t. Same s t) (λ _ t. Same s t) (m s)

module _ {S : Type 0} (admits releases : S → ℕ) where
  module _ {A : Type 0} where
    pub Quiet-pure : (a : A) → Quiet admits releases (pure a)
    Quiet-pure a = record { ends = λ s. Ends-pure a _ _ s (refl, refl) }

    pub Quiet-throw : (e : Exc) → Quiet admits releases (throw {A = A} e)
    Quiet-throw e = record { ends = λ s. Ends-throw e _ _ s (refl, refl) }

    pub Quiet-of_result : (r : Result A) → Quiet admits releases (of_result r)
    Quiet-of_result r = record {
      ends = λ s. Ends-of_result r s (λ _. (refl, refl)) (λ _. (refl, refl));
    }

    pub Quiet-try_except :
        (m : Action S A) (handler : Exc → Action S A)
        → Quiet admits releases m
        → ((e : Exc) → Quiet admits releases (handler e))
        → Quiet admits releases (try_except m handler)
    Quiet-try_except m handler h k = record {
      ends = λ s.
          Ends-try_except m handler s (Ends-weaken (m s) (h.ends s) (λ _ _ g. g) (λ _ _ g. g))
            (λ e t g.
              Ends-weaken (handler e t) ((k e).ends t) (λ _ u j. (j.0 ∙ g.0, j.1 ∙ g.1))
                (λ _ u j. (j.0 ∙ g.0, j.1 ∙ g.1)));
    }

  module _ {A B : Type 0} where
    pub Quiet-bind :
        (m : Action S A) (f : A → Action S B)
        → Quiet admits releases m
        → ((a : A) → Quiet admits releases (f a))
        → Quiet admits releases (m >>= f)
    Quiet-bind m f h k = record {
      ends = λ s.
          Ends-bind m f s (h.ends s)
            (λ a t g.
              Ends-weaken (f a t) ((k a).ends t) (λ _ u j. (j.0 ∙ g.0, j.1 ∙ g.1))
                (λ _ u j. (j.0 ∙ g.0, j.1 ∙ g.1)))
            (λ _ _ g. g);
    }

    pub Quiet-then :
        (m : Action S A) (k : Action S B)
        → Quiet admits releases m
        → Quiet admits releases k
        → Quiet admits releases (m >> k)
    unfolding ◌>>◌
    Quiet-then m k h g = Quiet-bind m (λ _. k) h (λ _. g)

  module _ {T A : Type 0} where
    pub Quiet-on_second :
        (m : Action S A)
        → Quiet admits releases m
        → Quiet {S = T × S} (λ w. admits w.1) (λ w. releases w.1) (on_second m)
    Quiet-on_second m h = record {
      ends = λ w.
          Ends-weaken (on_second m w) (Ends-on_second m w.0 w.1 (h.ends w.1)) (λ _ _ g. g.0)
            (λ _ _ g. g.0);
    }

    pub Quiet-on_first :
        (m : Action T A) → Quiet {S = T × S} (λ w. admits w.1) (λ w. releases w.1) (on_first m)
    unfolding on_first
    Quiet-on_first m = record { ends = λ w. go w.1 (m w.0) }
      where
        go :
            (s : S) (x : Result A × T)
            → Ends {S = T × S}
                (λ _ v. (admits v.1 ≡ admits s) × (releases v.1 ≡ releases s))
                (λ _ v. (admits v.1 ≡ admits s) × (releases v.1 ≡ releases s))
                (let (r, t) = x in (r, (t, s)))
        go s (ok a, t) = record { holds = (refl, refl) }
        go s (raise e, t) = record { holds = (refl, refl) }

-- The counts of the calls: only `admit` and `release` raise them, `release` also where it fails.
pub record PortsLaws {S L : Type 0} (ports : Ports S L) : Type 0 where
  pub admits : S → ℕ
  pub releases : S → ℕ
  pub admit_law :
      (auth_context : AuthContext) (tokens : ℤ) (s : S)
      → Ends
          (λ _ t. (admits t ≡ admits s + 1) × (releases t ≡ releases s))
          (λ _ t. Same admits releases s t)
          (ports.admit auth_context tokens s)
  pub release_law :
      (lease : L) (s : S)
      → Ends
          (λ _ t. (admits t ≡ admits s) × (releases t ≡ releases s + 1))
          (λ _ t. (admits t ≡ admits s) × (releases t ≡ releases s + 1))
          (ports.release lease s)
  pub finalize_tokens_law :
      (lease : L) (tokens : ℤ) (release_all : Bool)
      → Quiet admits releases (ports.finalize_tokens lease tokens release_all)
  pub start_audit_law : (audit : AuditStart) → Quiet admits releases (ports.start_audit audit)
  pub finalize_audit_law : (final : AuditFinal) → Quiet admits releases (ports.finalize_audit final)
  pub create_chat_completion_law :
      (payload : Fields) → Quiet admits releases (ports.create_chat_completion payload)
  pub collect_law : (event : AnalyticsEvent) → Quiet admits releases (ports.collect event)
  pub elapsed_ms_law : Quiet admits releases ports.elapsed_ms
  pub utc_now_law : Quiet admits releases ports.utc_now
