-- ===== src/RateLimit/Keys.antt =====
-- The keys of the limiters are apart, whatever the API keys.
use Prim.Native.Char.{code}
use Prim.Native.String.{◌++◌, count}
use text.Mathlib.TextLemmas.{append_cancel_left, append_inj, cons-append, length-append}
use llm_inference_gpu_server.Common.{ℕ, String, ◌≡◌, ◌≢◌, refl, ap, arith}
use llm_inference_gpu_server.RateLimit.Limiter.{rpm_key, tpm_key}
use llm_inference_gpu_server.RateLimit.Concurrency.{concurrency_key}

first_code : String → ℕ
first_code String.[] = 0
first_code (String.◌∷◌ c s) = code c

second_code : String → ℕ
second_code String.[] = 0
second_code (String.◌∷◌ c s) = first_code s

first-append : (s t : String) → first_code s ≢ 0 → first_code (s ++ t) ≡ first_code s
unfolding first_code
first-append String.[] t h = absurd (h refl)
first-append (String.◌∷◌ c s) t h = rw cons-append refl

first-concurrency_key : (a : String) → first_code (concurrency_key a) ≡ b'c'
unfolding first_code concurrency_key
first-concurrency_key a = first-append "concurrent:api_key:" a (omega arith)

first-rpm_key : (a : String) → first_code (rpm_key a) ≡ b'r'
unfolding first_code rpm_key
first-rpm_key a = first-append "rl:api_key:" (a ++ ":rpm") (omega arith)

first-tpm_key : (a : String) → first_code (tpm_key a) ≡ b'r'
unfolding first_code tpm_key
first-tpm_key a = first-append "rl:api_key:" (a ++ ":tpm") (omega arith)

pub concurrency_ne_rpm : (a b : String) → concurrency_key a ≢ rpm_key b
concurrency_ne_rpm a b e =
    absurd (omega (arith, ap first_code e, first-concurrency_key a, first-rpm_key b))

pub concurrency_ne_tpm : (a b : String) → concurrency_key a ≢ tpm_key b
concurrency_ne_tpm a b e =
    absurd (omega (arith, ap first_code e, first-concurrency_key a, first-tpm_key b))

count_suffix : (a b s t : String) → a ++ s ≡ b ++ t → count s ≡ count t → count a ≡ count b
count_suffix a b s t e h = omega (arith, length-append a s, length-append b t, ap count e)

pub rpm_ne_tpm : (a b : String) → rpm_key a ≢ tpm_key b
unfolding rpm_key tpm_key first_code second_code
rpm_ne_tpm a b e =
    let f = append_cancel_left "rl:api_key:" (a ++ ":rpm") (b ++ ":tpm") e in
    let g = append_inj f (count_suffix a b ":rpm" ":tpm" f refl) in
    absurd (omega (arith, ap second_code g.1))
