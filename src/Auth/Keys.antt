-- ===== src/Auth/Keys.antt =====
-- `ApiKeyService` (backend/services/auth/api_key_service.py): a raw key is looked up by its hash.
use llm_inference_gpu_server.Common.{
  ⊤, String, ◌≡◌, refl, subst, Bool, true, false, Option, none, some, List, some_of, arith,
}
use llm_inference_gpu_server.Common.Int.{ℤ, ◌≤ℤ◌, ◌<ℤ◌, leb_ℤ}
use llm_inference_gpu_server.Errors.{AppError, Exc, app, Action, pure, throw, raise_if, ◌>>=◌, ◌>>◌}
use llm_inference_gpu_server.Errors.Ends.{
  Ends, Returns, Ends-pure, Ends-throw, Ends-then, Ends-bind, Ends-raise_if,
}
use llm_inference_gpu_server.Auth.{AuthContext}

-- The columns of `ApiKey` that the service reads; a time is a number of microseconds.
pub record ApiKey : Type 0 where
  pub id : String
  pub user_id : String
  pub project_id : String
  pub allowed_models : Option (List String)
  pub expires_at : Option ℤ
  pub revoked_at : Option ℤ

-- What the service calls of `ApiKeyRepository`.
pub record ApiKeyRepository (S : Type 0) : Type 0 where
  pub get_by_hash : String → Action S (Option ApiKey)
  pub mark_used : ApiKey → Action S ⊤

abbrev key_error : String → String → AppError
key_error message code = record {
  message = message;
  code = code;
  status_code = 401;
  error_type = "invalid_request_error";
  param = none;
}

abbrev pub invalid_api_key : AppError
invalid_api_key = key_error "Invalid API key" "invalid_api_key"

abbrev pub expired_api_key : AppError
expired_api_key = key_error "API key has expired" "expired_api_key"

abbrev pub revoked_api_key : AppError
revoked_api_key = key_error "API key has been revoked" "revoked_api_key"

-- `auth_context_from_api_key`
unfoldable pub auth_context_from_api_key : ApiKey → AuthContext
auth_context_from_api_key key = record {
  api_key_id = key.id;
  user_id = key.user_id;
  project_id = key.project_id;
  allowed_models = key.allowed_models;
}

-- The two tests of `validate_api_key_state`, at the time `now`.
unfoldable pub is_revoked : Option ℤ → Bool
is_revoked none = false
is_revoked (some t) = true

unfoldable pub is_expired : ℤ → Option ℤ → Bool
is_expired now none = false
is_expired now (some t) = leb_ℤ t now

-- `validate_api_key_state`
unfoldable pub validate_api_key_state : {S : Type 0} → ℤ → ApiKey → Action S ⊤
validate_api_key_state now key =
    raise_if (is_revoked key.revoked_at) (app revoked_api_key)
    >> raise_if (is_expired now key.expires_at) (app expired_api_key)

module _ {S : Type 0} (repository : ApiKeyRepository S) where
  unfoldable pub use_key : ℤ → Option ApiKey → Action S AuthContext
  use_key now none = throw (app invalid_api_key)
  use_key now (some key) = do
    validate_api_key_state now key
    repository.mark_used key
    pure (auth_context_from_api_key key)

  -- `authenticate`, at the time `now`; `hash_api_key` is SHA-256 of the key in hexadecimal.
  unfoldable pub authenticate : (String → String) → ℤ → String → Action S AuthContext
  authenticate hash_api_key now raw_key =
      repository.get_by_hash (hash_api_key raw_key) >>= use_key now

-- The keys that are stored, by their hashes; each call returns.
pub record RepositoryLaws {S : Type 0} (repository : ApiKeyRepository S) : Type 0 where
  pub stored : S → String → Option ApiKey
  pub get_law :
      (hash : String) (s : S)
      → Ends (λ r t. r ≡ stored s hash) (λ _ _. ⊥) (repository.get_by_hash hash s)
  pub mark_used_law : (key : ApiKey) (s : S) → Returns (repository.mark_used key s)

module _ {S : Type 0} {repository : ApiKeyRepository S} (laws : RepositoryLaws repository) where
  module _ (now : ℤ) (o : Option ApiKey) where
    -- The key is stored, was not revoked, and has no end or one that is still to come.
    abbrev pub Valid : AuthContext → Type 0
    Valid context =
        (key : ApiKey) × (o ≡ some key)
        × (key.revoked_at ≡ none)
        × ((t : ℤ) → key.expires_at ≡ some t → now <ℤ t)
        × (context ≡ auth_context_from_api_key key)

    -- Why a key is refused.
    pub data Refused (e : Exc) : Type 0 where
      unknown : e ≡ app invalid_api_key → o ≡ none → Refused e
      revoked :
          (key : ApiKey) (t : ℤ)
          → e ≡ app revoked_api_key
          → o ≡ some key
          → key.revoked_at ≡ some t
          → Refused e
      expired :
          (key : ApiKey) (t : ℤ)
          → e ≡ app expired_api_key
          → o ≡ some key
          → key.revoked_at ≡ none
          → key.expires_at ≡ some t
          → t ≤ℤ now
          → Refused e

  not_revoked : (r : Option ℤ) → is_revoked r ≡ false → r ≡ none
  unfolding is_revoked
  not_revoked none h = refl
  not_revoked (some t) h = absurd (cc)

  was_revoked : (r : Option ℤ) → is_revoked r ≡ true → (t : ℤ) × (r ≡ some t)
  unfolding is_revoked
  was_revoked none h = absurd (cc)
  was_revoked (some t) h = (t, refl)

  later : (now u : ℤ) → leb_ℤ u now ≡ false → now <ℤ u
  later now u h = ground arith

  not_expired :
      (now : ℤ) (r : Option ℤ) → is_expired now r ≡ false → (t : ℤ) → r ≡ some t → now <ℤ t
  unfolding is_expired
  not_expired now none h t e = absurd (cc)
  not_expired now (some u) h t e = subst (λ x. now <ℤ x) (some_of e) (later now u h)

  was_expired :
      (now : ℤ) (r : Option ℤ) → is_expired now r ≡ true → (t : ℤ) × (r ≡ some t) × (t ≤ℤ now)
  unfolding is_expired
  was_expired now none h = absurd (cc)
  was_expired now (some t) h = (t, refl, ground arith)

  use_key-Valid :
      (now : ℤ) (o : Option ApiKey) (s : S)
      → Ends (λ c _. Valid now o c) (λ e _. Refused now o e) (use_key repository now o s)
  unfolding use_key validate_api_key_state
  use_key-Valid now none s = Ends-throw (app invalid_api_key) _ _ s (unknown refl refl)
  use_key-Valid now (some key) s =
      Ends-then (validate_api_key_state now key) _ s
        (Ends-then (raise_if (is_revoked key.revoked_at) (app revoked_api_key)) _ s
          (Ends-raise_if {P = λ _ _. key.revoked_at ≡ none} {R = λ e _. Refused now (some key) e}
            (is_revoked key.revoked_at) (app revoked_api_key) s (λ h. not_revoked key.revoked_at h)
            (λ h. let (t, e) = was_revoked key.revoked_at h in revoked key t refl refl e))
          (λ _ t fresh.
            Ends-raise_if
              {P = λ _ _. (key.revoked_at ≡ none) × ((t : ℤ) → key.expires_at ≡ some t → now <ℤ t)}
              {R = λ e _. Refused now (some key) e} (is_expired now key.expires_at)
              (app expired_api_key) t (λ h. (fresh, not_expired now key.expires_at h))
              (λ h.
                let (u, e, le) = was_expired now key.expires_at h in
                expired key u refl refl fresh e le))
          (λ _ _ r. r))
        (λ _ t valid.
          Ends-then (repository.mark_used key) (pure (auth_context_from_api_key key)) t
            (laws.mark_used_law key t)
            (λ _ u _.
              Ends-pure (auth_context_from_api_key key) _ _ u (key, refl, valid.0, valid.1, refl))
            (λ _ _ no. absurd no))
        (λ _ _ r. r)

  pub authenticate-Valid :
      (hash_api_key : String → String) (now : ℤ) (raw_key : String) (s : S)
      → Ends
          (λ c _. Valid now (laws.stored s (hash_api_key raw_key)) c)
          (λ e _. Refused now (laws.stored s (hash_api_key raw_key)) e)
          (authenticate repository hash_api_key now raw_key s)
  unfolding authenticate
  authenticate-Valid hash_api_key now raw_key s =
      Ends-bind (repository.get_by_hash (hash_api_key raw_key)) (use_key repository now) s
        (laws.get_law (hash_api_key raw_key) s)
        (λ o t h.
          subst
            (λ x. Ends (λ c _. Valid now x c) (λ e _. Refused now x e) (use_key repository now o t))
            h (use_key-Valid now o t))
        (λ _ _ no. absurd no)
