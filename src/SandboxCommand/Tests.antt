-- ===== src/SandboxCommand/Tests.antt =====
-- A time limit at concrete inputs.
use rakazo.Common.{ℕ, true, Option, none, some, Text, ◌≡◌}
use rakazo.SandboxCommand.{valid_sandbox_command_timeout, bounded_sandbox_command_timeout_ms}
use rakazo.SandboxCommand.Bounds.{IsTimeout, bounded-IsTimeout}

abbrev no_number : Option Text → Option ℕ
no_number s = none

bounded-IsTimeout_example :
    IsTimeout (bounded_sandbox_command_timeout_ms no_number none (some 4000000) none)
    × (valid_sandbox_command_timeout (some 4000000) ≡ true
        → some (bounded_sandbox_command_timeout_ms no_number none (some 4000000) none)
          ≡ some 4000000)
bounded-IsTimeout_example = bounded-IsTimeout no_number none (some 4000000) none
