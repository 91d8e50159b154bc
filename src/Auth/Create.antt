-- ===== src/Auth/Create.antt =====
-- The creation of an API key (backend/services/auth/api_key_service.py,
-- backend/services/auth/password_hashing.py), and its first use.
use Prim.Native.Char.{code}
use Prim.Native.String
use llm_inference_gpu_server.Common.{
  String, ◌≡◌, ◌≢◌, Option, none, some, List, if◌then◌else◌, ◌==◌,
}
use llm_inference_gpu_server.Common.Int.{ℤ}
use llm_inference_gpu_server.Text.{take_str}
use llm_inference_gpu_server.Errors.{Action, pure, ◌>>=◌}
use llm_inference_gpu_server.Errors.Ends.{Ends}
use llm_inference_gpu_server.Auth.Keys.{ApiKey, ApiKeyRepository, RepositoryLaws}

-- What `ApiKeyRepository.create` is given.
pub record NewApiKey : Type 0 where
  pub user_id : String
  pub project_id : String
  pub name : String
  pub key_hash : String
  pub key_prefix : String
  pub allowed_models : Option (List String)
  pub expires_at : Option ℤ

-- The row that it adds, with the identifier that the database gives it.
unfoldable pub row_of : String → NewApiKey → ApiKey
row_of id new = record {
  id = id;
  user_id = new.user_id;
  project_id = new.project_id;
  allowed_models = new.allowed_models;
  expires_at = new.expires_at;
  revoked_at = none;
}

-- `CreatedApiKey`
pub record CreatedApiKey : Type 0 where
  pub raw_key : String
  pub api_key_id : String
  pub key_prefix : String

-- `prefix[:-1] if prefix.endswith("_") else prefix`
unfoldable pub normalized_prefix : String → String
normalized_prefix String.[] = String.[]
normalized_prefix (String.◌∷◌ c String.[]) =
    if code c == b'_' then String.[] else String.◌∷◌ c String.[]
normalized_prefix (String.◌∷◌ c (String.◌∷◌ d s)) =
    String.◌∷◌ c (normalized_prefix (String.◌∷◌ d s))

-- `generate_api_key`, with what `token_urlsafe` draws.
unfoldable pub generate_api_key : String → String → String
generate_api_key prefix token = String.◌++◌ (normalized_prefix prefix) (String.◌++◌ "_" token)

-- `key_debug_prefix`
unfoldable pub key_debug_prefix : String → String
key_debug_prefix raw_key = take_str 16 raw_key

module _ {S : Type 0} (create : NewApiKey → Action S String) (hash_api_key : String → String) where
  -- `create_api_key`; the repository's `create` answers with the identifier of the row.
  unfoldable pub create_api_key :
      String
      → String
      → String
      → String
      → String
      → Option (List String)
      → Option ℤ
      → Action S CreatedApiKey
  create_api_key prefix token user_id project_id name allowed_models expires_at =
      let raw_key = generate_api_key prefix token in
      create (record {
        user_id = user_id;
        project_id = project_id;
        name = name;
        key_hash = hash_api_key raw_key;
        key_prefix = key_debug_prefix raw_key;
        allowed_models = allowed_models;
        expires_at = expires_at;
      })
      >>= λ id.
          pure
            (record { raw_key = raw_key; api_key_id = id; key_prefix = key_debug_prefix raw_key })

module _ {S : Type 0} {repository : ApiKeyRepository S} (laws : RepositoryLaws repository)
    (create : NewApiKey → Action S String) where
  -- Only the key with that hash has changed.
  abbrev pub OthersSame : String → S → S → Type 0
  OthersSame hash s t = (h : String) → h ≢ hash → laws.stored t h ≡ laws.stored s h

  -- A creation that returns has stored its row.
  abbrev pub CreateLaw : Type 0
  CreateLaw =
      (new : NewApiKey) (s : S)
      → Ends
          (λ id t.
            (laws.stored t new.key_hash ≡ some (row_of id new)) × OthersSame new.key_hash s t)
          (λ _ t. OthersSame new.key_hash s t) (create new s)
