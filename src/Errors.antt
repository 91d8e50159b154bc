-- ===== src/Errors.antt =====
-- Exceptions (backend/core/errors.py), and the calls that may raise them.
pub mod Ends
pub mod Parts
pub mod Runs
pub mod Keeps
pub mod Object
use llm_inference_gpu_server.Common.{ℕ, ⊤, String, ◌≡◌, ap, Option, Bool, true, false}

-- `AppError`
pub record AppError : Type 0 where
  pub message : String
  pub code : String
  pub status_code : ℕ
  pub error_type : String
  pub param : Option String

-- Any other exception, by its `code` attribute, if it has one, and its text.
pub data Exc : Type 0 where
  app : AppError → Exc
  other : Option String → String → Exc

pub data Result {ℓ} (A : Type ℓ) : Type ℓ where
  ok : A → Result A
  raise : Exc → Result A

-- A call that reads and changes a state. What was written before a raise stays written.
abbrev pub Action : Type 0 → Type 0 → Type 0
Action S A = S → Result A × S

module _ {S A : Type 0} where
  unfoldable pub pure : A → Action S A
  pure a s = (ok a, s)

  unfoldable pub throw : Exc → Action S A
  throw e s = (raise e, s)

infixl 5 ◌>>=◌ ◌>>◌
unfoldable pub ◌>>=◌ : {S A B : Type 0} → Action S A → (A → Action S B) → Action S B
◌>>=◌ m f s = let (r, s') = m s in elim r [ ok a ↦ f a s' | raise e ↦ (raise e, s') ]

unfoldable pub ◌>>◌ : {S A B : Type 0} → Action S A → Action S B → Action S B
unfolding ◌>>=◌
m >> k = m >>= λ _. k

-- `try: m except Exception as exc: handler(exc)`
unfoldable pub try_except : {S A : Type 0} → Action S A → (Exc → Action S A) → Action S A
try_except m handler s = let (r, s') = m s in elim r [ ok a ↦ (ok a, s') | raise e ↦ handler e s' ]

abbrev after_finally : {S A : Type 0} → Result A → Result ⊤ × S → Result A × S
after_finally r (ok _, s) = (r, s)
after_finally r (raise e, s) = (raise e, s)

-- `try: m finally: cleanup`
unfoldable pub try_finally : {S A : Type 0} → Action S A → Action S ⊤ → Action S A
try_finally m cleanup s = let (r, s') = m s in after_finally r (cleanup s')

-- A call without state, in a call with one.
unfoldable pub of_result : {S A : Type 0} → Result A → Action S A
of_result r s = (r, s)

-- `if c: raise e`
unfoldable pub raise_if : {S : Type 0} → Bool → Exc → Action S ⊤
raise_if c e s = (elim c [ true ↦ raise e | false ↦ ok tt ], s)

or_else : {A : Type 0} → A → Result A → A
or_else a (ok b) = b
or_else a (raise e) = a

pub ok_of : {A : Type 0} {a b : A} → ok a ≡ ok b → a ≡ b
unfolding or_else
ok_of {a = a} h = ap (or_else a) h

pub raise_ne_ok : {A : Type 0} {a : A} {e : Exc} → raise e ≡ ok a → ⊥
raise_ne_ok h = cc
