-- ===== src/Auth/Tests.antt =====
-- Runs of the authentication (backend/services/auth, backend/middlewares/auth.py).
use llm_inference_gpu_server.Common.{
  ℕ, String, refl, Bool, true, [], Option, none, some, str_eq, if◌then◌else◌,
}
use llm_inference_gpu_server.Common.Int.{pos}
use llm_inference_gpu_server.Common.Dict.{Dict, get, put}
use llm_inference_gpu_server.Errors.{AppError, Action, ok}
use llm_inference_gpu_server.Errors.Ends.{Ends}
use llm_inference_gpu_server.Text.{Text, codes, text_eq, after_prefix}
use llm_inference_gpu_server.Auth.{AuthContext}
use llm_inference_gpu_server.Auth.Keys.{
  ApiKey, ApiKeyRepository, RepositoryLaws, auth_context_from_api_key, authenticate, Valid, Refused,
  authenticate-Valid,
}
use llm_inference_gpu_server.Auth.Create.{NewApiKey, row_of}
use llm_inference_gpu_server.Auth.Middleware.{
  is_any_under, is_under, dispatch, Guarded, dispatch-Guarded,
}

abbrev api_key : ApiKey
api_key = record {
  id = "key_1";
  user_id = "user_1";
  project_id = "project_1";
  allowed_models = none;
  expires_at = some (pos 100);
  revoked_at = none;
}

-- One stored key, and the number of uses.
abbrev lookup : String → Option ApiKey
lookup hash = if str_eq hash "hash_1" then some api_key else none

abbrev one_key : ApiKeyRepository ℕ
one_key = record { get_by_hash = λ hash n. (ok (lookup hash), n); mark_used = λ key n. (ok tt, n) }

abbrev one_key_laws : RepositoryLaws one_key
one_key_laws = record {
  stored = λ n. lookup;
  get_law = λ hash n. record { holds = refl };
  mark_used_law = λ key n. record { holds = tt };
}

abbrev hash_of : String → String
hash_of raw_key = "hash_1"

authenticate-Valid_example :
    Ends
      (λ c _. Valid one_key_laws (pos 50) (lookup "hash_1") c)
      (λ e _. Refused one_key_laws (pos 50) (lookup "hash_1") e)
      (authenticate one_key hash_of (pos 50) "an_secret" 0)
authenticate-Valid_example = authenticate-Valid one_key_laws hash_of (pos 50) "an_secret" 0

abbrev accept : Text → Action ℕ AuthContext
accept key n = (ok (auth_context_from_api_key api_key), n)

abbrev route : Option AuthContext → Action ℕ Bool
route context n = (ok true, n)

abbrev refuse : AppError → Bool
refuse e = true

abbrev header : Option Text
header = some (codes "Bearer an_secret")

dispatch-Guarded_example :
    Guarded accept refuse route header 0
      (dispatch accept refuse route (codes "/v1/batch/jobs") header 0)
unfolding is_any_under is_under text_eq after_prefix
dispatch-Guarded_example =
    dispatch-Guarded accept refuse route (codes "/v1/batch/jobs") header 0 refl

-- Keys by their hashes.
abbrev key_table : ApiKeyRepository (Dict ApiKey)
key_table = record {
  get_by_hash = λ hash keys. (ok (get keys hash), keys);
  mark_used = λ key keys. (ok tt, keys);
}

abbrev key_table_laws : RepositoryLaws key_table
key_table_laws = record {
  stored = get;
  get_law = λ hash keys. record { holds = refl };
  mark_used_law = λ key keys. record { holds = tt };
}

abbrev create_row : NewApiKey → Action (Dict ApiKey) String
create_row new keys = (ok "key_2", put keys new.key_hash (row_of "key_2" new))

abbrev same_text : String → String
same_text raw_key = raw_key

abbrev no_keys : Dict ApiKey
no_keys = []
