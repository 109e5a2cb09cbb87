-- ===== src/SandboxCommand/Bounds.antt =====
-- Every limit is positive and at most an hour.
use rakazo.Common.{
  ℕ, ◌<◌, ◌≤◌, true, Option, none, some, Text, ◌≡◌, refl, arith, Bool-cases, inl, inr,
}
use rakazo.SandboxCommand.{
  max_sandbox_command_timeout_ms, valid_sandbox_command_timeout, value_or, valid_or_default,
  sandbox_command_timeout_ms, fallback_of, bounded_sandbox_command_timeout_ms,
}

abbrev pub IsTimeout : ℕ → Type 0
IsTimeout t = (0 < t) × (t ≤ max_sandbox_command_timeout_ms)

valid-IsTimeout :
    (value : Option ℕ) (other : ℕ)
    → valid_sandbox_command_timeout value ≡ true
    → IsTimeout (value_or value other)
unfolding valid_sandbox_command_timeout
valid-IsTimeout none other e = ground arith
valid-IsTimeout (some t) other e = ground arith

valid_or_default-IsTimeout : (value : Option ℕ) → IsTimeout (valid_or_default value)
unfolding valid_or_default
valid_or_default-IsTimeout value = elim (Bool-cases (valid_sandbox_command_timeout value)) [
  | inl e ↦ rw e (valid-IsTimeout value 300000 e)
  | inr e ↦ rw e (omega arith, omega arith)
]

fallback-IsTimeout :
    (number_of : Option Text → Option ℕ) (configured : Option Text) (fallback : Option (Option ℕ))
    → IsTimeout (fallback_of number_of configured fallback)
unfolding fallback_of sandbox_command_timeout_ms
fallback-IsTimeout number_of configured none = valid_or_default-IsTimeout (number_of configured)
fallback-IsTimeout number_of configured (some fallback) = valid_or_default-IsTimeout fallback

-- The time limit of a command is positive and at most an hour, whatever is requested, configured or
-- given to fall back on; and a valid request is the limit.
pub bounded-IsTimeout :
    (number_of : Option Text → Option ℕ) (configured : Option Text) (requested : Option ℕ)
    → (fallback : Option (Option ℕ))
    → IsTimeout (bounded_sandbox_command_timeout_ms number_of configured requested fallback)
      × (valid_sandbox_command_timeout requested ≡ true
          → some (bounded_sandbox_command_timeout_ms number_of configured requested fallback)
            ≡ requested)
unfolding bounded_sandbox_command_timeout_ms
bounded-IsTimeout number_of configured requested fallback =
    elim (Bool-cases (valid_sandbox_command_timeout requested)) [
      | inl e ↦ rw e (valid-IsTimeout requested 0 e, λ _. same requested e)
      | inr e ↦ rw e (fallback-IsTimeout number_of configured fallback, λ h. ground arith)
    ]
  where
    same : (o : Option ℕ) → valid_sandbox_command_timeout o ≡ true → some (value_or o 0) ≡ o
    same none e = ground (arith, valid_sandbox_command_timeout)
    same (some t) e = refl
