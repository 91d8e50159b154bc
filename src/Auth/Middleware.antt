-- ===== src/Auth/Middleware.antt =====
-- `ApiKeyAuthMiddleware` (backend/middlewares/auth.py): the protected paths need a key.
use llm_inference_gpu_server.Common.{
  ℕ, String, ◌≡◌, refl, Bool, true, false, ◌||◌, Option, none, some, List, [], ◌∷◌, ◌++◌,
  if◌then◌else◌,
}
use llm_inference_gpu_server.Errors.{AppError, app, other, Result, ok, raise, Action, throw}
use llm_inference_gpu_server.Text.{Text, codes, text_eq, strip, after_prefix, after_prefix_lem}
use llm_inference_gpu_server.Auth.{AuthContext, missing_api_key}

abbrev pub protected_paths : List Text
protected_paths =
    codes "/v1/chat/completions"
    ∷ codes "/v1/completions"
    ∷ codes "/v1/embeddings"
    ∷ codes "/v1/batch"
    ∷ []

abbrev is_some : {A : Type 0} → Option A → Bool
is_some none = false
is_some (some a) = true

-- `path == protected or path.startswith(f"{protected}/")`
unfoldable pub is_under : Text → Text → Bool
is_under path guarded = text_eq path guarded || is_some (after_prefix (guarded ++ codes "/") path)

-- `_is_protected_path`
unfoldable pub is_any_under : List Text → Text → Bool
is_any_under [] path = false
is_any_under (p ∷ ps) path = is_under path p || is_any_under ps path

abbrev pub is_protected_path : Text → Bool
is_protected_path path = is_any_under protected_paths path

-- `raw_key or None`
unfoldable pub or_none : Text → Option Text
or_none [] = none
or_none (c ∷ s) = some (c ∷ s)

unfoldable pub stripped_key : Option Text → Option Text
stripped_key none = none
stripped_key (some s) = or_none (strip s)

-- `_extract_bearer_token`, on the header `authorization`.
unfoldable pub extract_bearer_token : Option Text → Option Text
extract_bearer_token none = none
extract_bearer_token (some authorization) =
    stripped_key (after_prefix (codes "Bearer ") authorization)

module _ {S R : Type 0} (authenticate : Text → Action S AuthContext) (error_response : AppError → R)
    (call_next : Option AuthContext → Action S R) where
  -- `raise missing_api_key_error()`, or `authenticate`.
  unfoldable pub identify : Option Text → Action S AuthContext
  identify none = throw (app missing_api_key)
  identify (some raw_key) = authenticate raw_key

  -- `except AppError as exc`; then `call_next`, outside the `try`.
  unfoldable pub respond : Result AuthContext × S → Result R × S
  respond (ok context, s) = call_next (some context) s
  respond (raise (app e), s) = (ok (error_response e), s)
  respond (raise (other code text), s) = (raise (other code text), s)

  -- `dispatch`
  unfoldable pub dispatch : Text → Option Text → Action S R
  dispatch path authorization s =
      if is_protected_path path
      then respond (identify (extract_bearer_token authorization) s)
      else call_next none s

  -- What a request to a protected path comes to: the route runs for a caller that `authenticate` has
  -- answered with, or it does not run.
  pub data Guarded (authorization : Option Text) (s : S) : Result R × S → Type 0 where
    anonymous :
        extract_bearer_token authorization ≡ none
        → Guarded authorization s (ok (error_response missing_api_key), s)
    identified :
        (key : Text) (context : AuthContext) (t : S)
        → extract_bearer_token authorization ≡ some key
        → authenticate key s ≡ (ok context, t)
        → Guarded authorization s (call_next (some context) t)
    refused :
        (key : Text) (e : AppError) (t : S)
        → extract_bearer_token authorization ≡ some key
        → authenticate key s ≡ (raise (app e), t)
        → Guarded authorization s (ok (error_response e), t)
    broken :
        (key : Text) (code : Option String) (text : String) (t : S)
        → extract_bearer_token authorization ≡ some key
        → authenticate key s ≡ (raise (other code text), t)
        → Guarded authorization s (raise (other code text), t)

  pub dispatch-Guarded :
      (path : Text) (authorization : Option Text) (s : S)
      → is_protected_path path ≡ true
      → Guarded authorization s (dispatch path authorization s)
  unfolding dispatch respond identify throw
  dispatch-Guarded path authorization s h =
      rw h (by_token (extract_bearer_token authorization) refl)
    where
      by_answer :
          (key : Text) (x : Result AuthContext × S)
          → extract_bearer_token authorization ≡ some key
          → authenticate key s ≡ x
          → Guarded authorization s (respond x)
      by_answer key (ok context, t) e a = identified key context t e a
      by_answer key (raise (app x), t) e a = refused key x t e a
      by_answer key (raise (other code text), t) e a = broken key code text t e a

      by_token :
          (o : Option Text)
          → extract_bearer_token authorization ≡ o
          → Guarded authorization s (respond (identify o s))
      by_token none e = anonymous e
      by_token (some key) e = by_answer key (authenticate key s) e refl

-- A key that strips to itself is what the header `Bearer` with that key gives.
extract_bearer_token_lem :
    (c : ℕ) (s : Text)
    → strip (c ∷ s) ≡ c ∷ s
    → extract_bearer_token (some (codes "Bearer " ++ c ∷ s)) ≡ some (c ∷ s)
unfolding extract_bearer_token stripped_key or_none
extract_bearer_token_lem c s h = rw (after_prefix_lem (codes "Bearer ") (c ∷ s), h) refl
