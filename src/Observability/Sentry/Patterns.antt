-- ===== src/Observability/Sentry/Patterns.antt =====
-- The three patterns of backend/services/observability/sentry.py that look for secrets in a text, and
-- `re.sub` for them.
use Prim.Native.Char.{code}
use Prim.Native.String
use llm_inference_gpu_server.Common.{
  ℕ, zero, suc, ◌+◌, ◌-◌, String, Bool, true, false, not, ◌&&◌, ◌||◌, Option, none, some,
  if◌then◌else◌, ◌==◌, leb,
}
use llm_inference_gpu_server.Text.{is_space, is_digit}

abbrev pub redacted : String
redacted = "[Filtered]"

unfoldable pub size : String → ℕ
size String.[] = 0
size (String.◌∷◌ c s) = suc (size s)

-- The longest prefix of characters that pass a test, and what follows it.
unfoldable pub run : (ℕ → Bool) → String → String × String
run p String.[] = (String.[], String.[])
run p (String.◌∷◌ c s) =
    let (xs, rest) = run p s in
    if p (code c) then (String.◌∷◌ c xs, rest) else (String.[], String.◌∷◌ c s)

-- What follows a prefix, each character of the text taken through `fold` first.
unfoldable pub after : (ℕ → ℕ) → String → String → Option String
after fold String.[] s = some s
after fold (String.◌∷◌ p prefix) String.[] = none
after fold (String.◌∷◌ p prefix) (String.◌∷◌ c s) =
    let rest = after fold prefix s in if fold (code c) == code p then rest else none

abbrev pub lower_code : ℕ → ℕ
lower_code c = if leb b'A' c && leb c b'Z' then c + 32 else c

abbrev pub same_code : ℕ → ℕ
same_code c = c

abbrev pub is_empty : String → Bool
is_empty String.[] = true
is_empty (String.◌∷◌ c s) = false

abbrev pub is_letter : ℕ → Bool
is_letter c = (leb b'a' c && leb c b'z') || (leb b'A' c && leb c b'Z')

-- `[A-Za-z0-9_\-]`
unfoldable pub is_key_char : ℕ → Bool
is_key_char c = is_letter c || is_digit c || c == b'_' || c == b'-'

-- `[A-Za-z0-9._~+/=\-]`, in any case: four letters outside ASCII are equal to one in it.
unfoldable pub is_bearer_char : ℕ → Bool
is_bearer_char c =
    is_key_char c
    || c == b'.'
    || c == b'~'
    || c == b'+'
    || c == b'/'
    || c == b'='
    || c == 304
    || c == 305
    || c == 383
    || c == 8490

-- `[^/@\s]` and `[^:/@\s]`
unfoldable pub is_password_char : ℕ → Bool
is_password_char c = not (c == b'/' || c == b'@' || is_space c)

unfoldable pub is_user_char : ℕ → Bool
is_user_char c = is_password_char c && not (c == b':')

-- A match of a pattern at the start of a text, after the character `prev`: what is put in its place,
-- and the number of its characters.
abbrev pub Pattern : Type 0
Pattern = Option ℕ → String → Option (String × ℕ)

-- `pattern.sub(...)`: the characters of a match, `skip` of which are still to come, are left out.
unfoldable pub sub : Pattern → String → ℕ → Option ℕ → String
sub pattern String.[] skip prev = String.[]
sub pattern (String.◌∷◌ c s) (suc skip) prev = sub pattern s skip (some (code c))
sub pattern (String.◌∷◌ c s) zero prev = elim (pattern prev (String.◌∷◌ c s)) [
  | none ↦ String.◌∷◌ c (sub pattern s 0 (some (code c)))
  | some (replacement, n) ↦ String.◌++◌ replacement (sub pattern s (n - 1) (some (code c)))
]

-- `Bearer\s+[A-Za-z0-9._~+/=\-]+`
unfoldable pub token_after : String × String → Option (String × ℕ)
token_after (spaces, s) =
    let (token, rest) = run is_bearer_char s in
    if is_empty spaces || is_empty token
    then none
    else some ("Bearer [Filtered]", 6 + size spaces + size token)

unfoldable pub bearer_pattern : Pattern
bearer_pattern prev s = found (after lower_code "bearer" s)
  where
    found : Option String → Option (String × ℕ)
    found none = none
    found (some t) = token_after (run is_space t)

-- `://([^:/@\s]+):([^/@\s]+)@`
unfoldable pub password_after : String → Option String → Option (String × ℕ)
password_after user none = none
password_after user (some s) = closed (run is_password_char s)
  where
    closed : String × String → Option (String × ℕ)
    closed (password, String.[]) = none
    closed (password, String.◌∷◌ c rest) =
        if is_empty user || is_empty password || not (code c == b'@')
        then none
        else some
            (String.◌++◌ "://" (String.◌++◌ user ":***@"), 3 + size user + 1 + size password + 1)

unfoldable pub url_credential_pattern : Pattern
url_credential_pattern prev s = found (after same_code "://" s)
  where
    found : Option String → Option (String × ℕ)
    found none = none
    found (some t) =
        let (user, rest) = run is_user_char t in password_after user (after same_code ":" rest)

-- `is_word` is the test of `\w`, which for letters outside ASCII reads the tables of Unicode.
module _ (is_word : ℕ → Bool) where
  abbrev pub is_word_at : Option ℕ → Bool
  is_word_at none = false
  is_word_at (some c) = is_word c

  -- `\b`
  unfoldable pub boundary : Option ℕ → Option ℕ → Bool
  boundary before next = if is_word_at before then not (is_word_at next) else is_word_at next

  abbrev pub head_of : String → Option ℕ
  head_of String.[] = none
  head_of (String.◌∷◌ c s) = some (code c)

  -- `{12,}` and `\b`: the longest part of a run, at least 12 characters, that ends at a boundary. `n`
  -- characters of it are behind, the last of them `prev`.
  unfoldable pub longest : String → String → ℕ → Option ℕ → Option ℕ
  longest String.[] rest n prev = if leb 12 n && boundary prev (head_of rest) then some n else none
  longest (String.◌∷◌ c s) rest n prev = or_here (longest s rest (suc n) (some (code c)))
    where
      or_here : Option ℕ → Option ℕ
      or_here (some k) = some k
      or_here none = if leb 12 n && boundary prev (some (code c)) then some n else none

  -- `[A-Za-z0-9_\-]{12,}\b`, after a prefix of 3 characters, the last of which is `prev`.
  unfoldable pub key_after : ℕ → Option String → Option (String × ℕ)
  key_after prev none = none
  key_after prev (some s) =
      let (xs, rest) = run is_key_char s in counted (longest xs rest 0 (some prev))
    where
      counted : Option ℕ → Option (String × ℕ)
      counted none = none
      counted (some k) = some (redacted, 3 + k)

  abbrev pub first_match : Option (String × ℕ) → Option (String × ℕ) → Option (String × ℕ)
  first_match none other = other
  first_match (some m) other = some m

  -- `\b(an_[A-Za-z0-9_\-]{12,}|sk-[A-Za-z0-9_\-]{12,})\b`
  unfoldable pub api_key_pattern : Pattern
  api_key_pattern prev s =
      if boundary prev (head_of s)
      then first_match (key_after b'_' (after same_code "an_" s))
          (key_after b'-' (after same_code "sk-" s))
      else none

  -- `_scrub_string`
  unfoldable pub scrub_string : String → String
  scrub_string value =
      sub url_credential_pattern (sub api_key_pattern (sub bearer_pattern value 0 none) 0 none) 0
        none
