-- ===== src/Secrets/Tests.antt =====
-- Secrets at concrete inputs.
use rakazo.Common.{
  ℕ, ◌↔◌, true, false, List, none, some, Text, lit, text_eq, has, trim, is_space, trim_start,
  trim_end, ok, ◌≡◌, refl, if◌then◌else◌,
}
use rakazo.Secrets.{
  Environment, updater_token, is_dev_secret_allowed, resolve_dedicated_secret, when_set,
  has_valid_bearer_token, supplied,
}
use rakazo.Secrets.Separation.{IsSafe, dedicated-IsSafe}
use rakazo.Secrets.Bearer.{bearer_token_iff}

abbrev long_token : Text
long_token = lit "0123456789abcdef0123456789abcdef"

abbrev env : Environment
env name = if text_eq name (lit "RAKAZO_UPDATER_TOKEN") then some long_token else none

strict : is_dev_secret_allowed env ≡ false
unfolding is_dev_secret_allowed text_eq
strict = refl

resolved : resolve_dedicated_secret env updater_token ≡ ok long_token
unfolding resolve_dedicated_secret when_set is_dev_secret_allowed text_eq has trim trim_start
    trim_end is_space
resolved = refl

dedicated-IsSafe_example : IsSafe env updater_token long_token
dedicated-IsSafe_example = dedicated-IsSafe env updater_token long_token strict resolved

-- A text of ASCII characters is its own UTF-8 encoding.
abbrev encode : Text → List ℕ
encode s = s

bearer_token_iff_example :
    (has_valid_bearer_token encode (some (lit "Bearer abc")) (lit "abc") ≡ true)
    ↔ (encode (lit "abc") ≡ encode (supplied (some (lit "Bearer abc"))))
bearer_token_iff_example = bearer_token_iff encode (some (lit "Bearer abc")) (lit "abc")
