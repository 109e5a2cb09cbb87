-- ===== src/SandboxCommand.antt =====
-- packages/core/src/sandbox-command.ts: the time limit of a command. A number that is undefined, not a
-- safe integer or negative is `none`; `Number` of the environment's text is an argument.
pub mod Bounds
mod Tests
use rakazo.Common.{ℕ, ◌*◌, ltb, leb, Bool, false, ◌&&◌, Option, none, some, Text, if◌then◌else◌}

abbrev default_sandbox_command_timeout_ms : ℕ
default_sandbox_command_timeout_ms = 300000

abbrev pub max_sandbox_command_timeout_ms : ℕ
max_sandbox_command_timeout_ms = 3600000

pub valid_sandbox_command_timeout : Option ℕ → Bool
valid_sandbox_command_timeout none = false
valid_sandbox_command_timeout (some value) = ltb 0 value && leb value max_sandbox_command_timeout_ms

abbrev pub value_or : Option ℕ → ℕ → ℕ
value_or none other = other
value_or (some value) other = value

-- `valid(value) ? value : DEFAULT`
abbrev pub valid_or_default : Option ℕ → ℕ
unfolding valid_sandbox_command_timeout
valid_or_default value =
    if valid_sandbox_command_timeout value
    then value_or value default_sandbox_command_timeout_ms
    else default_sandbox_command_timeout_ms

pub sandbox_command_timeout_ms : (Option Text → Option ℕ) → Option Text → ℕ
unfolding valid_or_default
sandbox_command_timeout_ms number_of configured = valid_or_default (number_of configured)

-- The fallback is absent or a number.
abbrev pub fallback_of : (Option Text → Option ℕ) → Option Text → Option (Option ℕ) → ℕ
unfolding sandbox_command_timeout_ms valid_or_default
fallback_of number_of configured none = sandbox_command_timeout_ms number_of configured
fallback_of number_of configured (some fallback) = valid_or_default fallback

pub bounded_sandbox_command_timeout_ms :
    (Option Text → Option ℕ) → Option Text → Option ℕ → Option (Option ℕ) → ℕ
unfolding valid_sandbox_command_timeout fallback_of
bounded_sandbox_command_timeout_ms number_of configured requested fallback =
    if valid_sandbox_command_timeout requested
    then value_or requested 0
    else fallback_of number_of configured fallback
