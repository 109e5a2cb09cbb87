-- ===== src/Secrets/Separation.antt =====
-- Outside development and tests, a secret is never a known one, and the credentials of the sidecars
-- never unlock one another.
use rakazo.Common.{
  ltb, Bool, true, false, not, ◌&&◌, ◌≤◌, some, Text, lit, text_eq, has, is_empty, any, length,
  if◌then◌else◌, ok, err, ◌≡◌, subst, arith, Bool-cases, inl, inr,
}
use rakazo.Secrets.{
  Environment, SecretError, Dedicated, same, trimmed, is_dev_secret_allowed, resolve_auth_secret,
  resolve_dedicated_secret, resolve_encryption_key, dev_auth_secret_placeholder,
  dev_encryption_key_placeholder, dedicated_secret_placeholders, when_set, placeholder, conflict,
  too_short,
}

-- `value` is what a guard of the environment accepts.
abbrev pub IsSafe : Environment → Dedicated → Text → Type 0
IsSafe env d value =
    (trimmed (env d.name) ≡ value)
    × (has dedicated_secret_placeholders value ≡ false)
    × (any (λ name. same (some value) (env name)) d.conflicts ≡ false)
    × (32 ≤ length value)

accepted :
    (p c l : Bool) (e1 e2 e3 : SecretError) (set value : Text)
    → (if p then err e1 else if c then err e2 else if l then err e3 else ok set) ≡ ok value
    → (set ≡ value) × (p ≡ false) × (c ≡ false) × (l ≡ false)
accepted true c l e1 e2 e3 set value e = ground arith
accepted false true l e1 e2 e3 set value e = ground arith
accepted false false true e1 e2 e3 set value e = ground arith
accepted false false false e1 e2 e3 set value e = ground arith

set_is_safe :
    (env : Environment) (d : Dedicated) (set value : Text)
    → is_dev_secret_allowed env ≡ false
    → when_set env d set ≡ ok value
    → (set ≡ value)
      × (has dedicated_secret_placeholders value ≡ false)
      × (any (λ name. same (some value) (env name)) d.conflicts ≡ false)
      × (32 ≤ length value)
unfolding is_dev_secret_allowed when_set
set_is_safe env d set value strict e =
    let (same_, p, c, l) =
      accepted (not (is_dev_secret_allowed env) && has dedicated_secret_placeholders set)
        (any (λ name. same (some set) (env name)) d.conflicts)
        (not (is_dev_secret_allowed env) && ltb (length set) 32) (placeholder d.name)
        (conflict d.name) (too_short d.name) set value e in
    (
      same_,
      subst (λ v. has dedicated_secret_placeholders v ≡ false) same_ (ground arith),
      subst (λ v. any (λ name. same (some v) (env name)) d.conflicts ≡ false) same_ c,
      subst (λ v. 32 ≤ length v) same_ (ground arith),
    )

-- Outside development and tests, a dedicated secret that is accepted is the trimmed value of its own
-- variable, is none of the published placeholders, differs from the value of each variable that it must
-- not share, and has at least 32 code units.
pub dedicated-IsSafe :
    (env : Environment) (d : Dedicated) (value : Text)
    → is_dev_secret_allowed env ≡ false
    → resolve_dedicated_secret env d ≡ ok value
    → IsSafe env d value
unfolding resolve_dedicated_secret
dedicated-IsSafe env d value strict e = elim (Bool-cases (is_empty (trimmed (env d.name)))) [
  | inl h ↦ ground arith
  | inr h ↦ set_is_safe env d (trimmed (env d.name)) value strict (ground arith)
]

-- Outside development and tests, the secret that signs sessions and the encryption key are each the
-- variable's own value and not the development placeholder, or starting is refused.
runtime_secrets_not_placeholder :
    (env : Environment) (value : Text)
    → is_dev_secret_allowed env ≡ false
    → (resolve_auth_secret env ≡ ok value
        → (env (lit "BETTER_AUTH_SECRET") ≡ some value)
          × (text_eq value dev_auth_secret_placeholder ≡ false))
      × (resolve_encryption_key env ≡ ok value
          → (env (lit "ENCRYPTION_KEY") ≡ some value)
            × (text_eq value dev_encryption_key_placeholder ≡ false))
unfolding resolve_auth_secret resolve_encryption_key
runtime_secrets_not_placeholder env value strict = (ground arith, ground arith)
