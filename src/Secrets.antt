-- ===== src/Secrets.antt =====
-- packages/core/src/secrets-guard.ts: where the deployment's secrets come from. The environment is a
-- function from names to the values that are set; UTF-8 encoding is the host's `TextEncoder`.
pub mod Separation
pub mod Bearer
mod Tests
use rakazo.Common.{
  ℕ, zero, suc, ltb, ◌==◌, Bool, true, false, not, ◌&&◌, ◌||◌, List, [], ◌∷◌, Option, none, some,
  Text, lit, text_eq, has, is_empty, starts_with, trim, truthy, or_empty, any, length, drop,
  if◌then◌else◌, Result, ok, err,
}
use Prim.Native.Nat.{bit_or, bit_xor}

abbrev pub Environment : Type 0
Environment = Text → Option Text

abbrev pub dev_auth_secret_placeholder : Text
dev_auth_secret_placeholder = lit "dev-secret-change-me-please-32chars"

abbrev pub dev_encryption_key_placeholder : Text
dev_encryption_key_placeholder = lit "dev-encryption-key"

abbrev dev_supervisor_token_placeholder : Text
dev_supervisor_token_placeholder = lit "dev-supervisor-token-change-me-32chars"

abbrev dev_screen_proxy_secret_placeholder : Text
dev_screen_proxy_secret_placeholder = lit "dev-screen-proxy-secret-change-me-32chars"

abbrev example_supervisor_token_placeholder : Text
example_supervisor_token_placeholder = lit "replace-with-32-plus-character-supervisor-token"

abbrev example_screen_proxy_secret_placeholder : Text
example_screen_proxy_secret_placeholder = lit "replace-with-32-plus-character-screen-proxy-secret"

abbrev pub dedicated_secret_placeholders : List Text
dedicated_secret_placeholders =
    dev_supervisor_token_placeholder ∷ dev_screen_proxy_secret_placeholder
    ∷ example_supervisor_token_placeholder ∷ example_screen_proxy_secret_placeholder ∷ []

-- The errors, one constructor for each message
pub data SecretError : Type 0 where
  runtime_secrets : SecretError
  missing : Text → SecretError
  placeholder : Text → SecretError
  conflict : Text → SecretError
  too_short : Text → SecretError

-- `a === b`, for values that may be absent
abbrev pub same : Option Text → Option Text → Bool
same none none = true
same none (some b) = false
same (some a) none = false
same (some a) (some b) = text_eq a b

pub is_dev_secret_allowed : Environment → Bool
is_dev_secret_allowed env =
    same (env (lit "RAKAZO_ALLOW_DEV_SECRETS")) (some (lit "1"))
    || truthy (env (lit "VITEST"))
    || same (env (lit "NODE_ENV")) (some (lit "development"))
    || same (env (lit "NODE_ENV")) (some (lit "test"))

pub resolve_auth_secret : Environment → Result SecretError Text
unfolding is_dev_secret_allowed
resolve_auth_secret env =
    let value = env (lit "BETTER_AUTH_SECRET") in
    if not (truthy value)
    then if is_dev_secret_allowed env then ok dev_auth_secret_placeholder else err runtime_secrets
    else if not (is_dev_secret_allowed env) && text_eq (or_empty value) dev_auth_secret_placeholder
    then err runtime_secrets
    else ok (or_empty value)

pub resolve_encryption_key : Environment → Result SecretError Text
unfolding is_dev_secret_allowed
resolve_encryption_key env =
    let value = env (lit "ENCRYPTION_KEY") in
    if not (truthy value)
    then if is_dev_secret_allowed env
      then ok dev_encryption_key_placeholder
      else err runtime_secrets
    else if not (is_dev_secret_allowed env)
        && text_eq (or_empty value) dev_encryption_key_placeholder
    then err runtime_secrets
    else ok (or_empty value)

-- The options of a dedicated secret
pub record Dedicated : Type 0 where
  pub name : Text
  pub conflicts : List Text
  pub development_fallback : Option Text

-- `env[options.name]?.trim()`, empty where it is not set
abbrev pub trimmed : Option Text → Text
trimmed none = []
trimmed (some s) = trim s

abbrev when_missing : Environment → Dedicated → Result SecretError Text
unfolding is_dev_secret_allowed
when_missing env d =
    if truthy d.development_fallback && is_dev_secret_allowed env
    then ok (or_empty d.development_fallback)
    else err (missing d.name)

abbrev pub when_set : Environment → Dedicated → Text → Result SecretError Text
unfolding is_dev_secret_allowed
when_set env d value =
    if not (is_dev_secret_allowed env) && has dedicated_secret_placeholders value
    then err (placeholder d.name)
    else if any (λ name. same (some value) (env name)) d.conflicts
    then err (conflict d.name)
    else if not (is_dev_secret_allowed env) && ltb (length value) 32
    then err (too_short d.name)
    else ok value

pub resolve_dedicated_secret : Environment → Dedicated → Result SecretError Text
unfolding is_dev_secret_allowed
resolve_dedicated_secret env d =
    let value = trimmed (env d.name) in
    if is_empty value then when_missing env d else when_set env d value

abbrev supervisor_token : Dedicated
supervisor_token = record {
  name = lit "SANDBOX_SUPERVISOR_TOKEN";
  conflicts = lit "BETTER_AUTH_SECRET" ∷ lit "SCREEN_PROXY_SECRET" ∷ [];
  development_fallback = some dev_supervisor_token_placeholder;
}

abbrev screen_proxy_secret : Dedicated
screen_proxy_secret = record {
  name = lit "SCREEN_PROXY_SECRET";
  conflicts = lit "BETTER_AUTH_SECRET" ∷ lit "SANDBOX_SUPERVISOR_TOKEN" ∷ [];
  development_fallback = some dev_screen_proxy_secret_placeholder;
}

abbrev pub updater_token : Dedicated
updater_token = record {
  name = lit "RAKAZO_UPDATER_TOKEN";
  conflicts =
      lit "BETTER_AUTH_SECRET" ∷ lit "SANDBOX_SUPERVISOR_TOKEN" ∷ lit "SCREEN_PROXY_SECRET" ∷ [];
  development_fallback = none;
}

resolve_supervisor_token : Environment → Result SecretError Text
unfolding resolve_dedicated_secret
resolve_supervisor_token env = resolve_dedicated_secret env supervisor_token

resolve_screen_proxy_secret : Environment → Result SecretError Text
unfolding resolve_dedicated_secret
resolve_screen_proxy_secret env = resolve_dedicated_secret env screen_proxy_secret

resolve_updater_token : Environment → Result SecretError Text
unfolding resolve_dedicated_secret
resolve_updater_token env = resolve_dedicated_secret env updater_token

-- `authorization?.startsWith("Bearer ") ? authorization.slice(7) : ""`
abbrev pub supplied : Option Text → Text
supplied none = []
supplied (some authorization) =
    if starts_with authorization (lit "Bearer ") then drop 7 authorization else []

-- The loop over the bytes of two lists of equal length; `candidate[index] ?? 0` past an end.
pub difference_from : ℕ → List ℕ → List ℕ → ℕ
difference_from difference [] candidate = difference
difference_from difference (a ∷ actual) [] =
    difference_from (bit_or difference (bit_xor a 0)) actual []
difference_from difference (a ∷ actual) (c ∷ candidate) =
    difference_from (bit_or difference (bit_xor a c)) actual candidate

pub has_valid_bearer_token : (Text → List ℕ) → Option Text → Text → Bool
unfolding difference_from
has_valid_bearer_token encode authorization expected_token =
    let actual = encode expected_token in
    let candidate = encode (supplied authorization) in
    if not (length actual == length candidate)
    then false
    else difference_from 0 actual candidate == 0
