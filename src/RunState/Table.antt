-- ===== src/RunState/Table.antt =====
-- What the transition table of packages/core/src/run-state.ts says, status by status.
use rakazo.Common.{true, not, ◌≡◌, refl, ◌⊎◌, arith}
use rakazo.RunState.{
  RunStatus, queued, running, waiting_input, waiting_takeover, completed, failed, cancelled,
  can_transition, is_active, is_terminal,
}

-- Every status is either active or terminal, and none is both.
is_terminal-is_active : (s : RunStatus) → is_terminal s ≡ not (is_active s)
unfolding is_terminal is_active
is_terminal-is_active queued = refl
is_terminal-is_active _ = refl

-- Every active status may be cancelled, and no terminal one may.
cancel_iff_active : (s : RunStatus) → can_transition s cancelled ≡ is_active s
unfolding can_transition is_active
cancel_iff_active queued = refl
cancel_iff_active _ = refl

-- The three outcomes of execution and the two ways of waiting are entered from `running` alone.
pub outcome_from_running :
    (s t : RunStatus)
    → (t ≡ completed) ⊎ (t ≡ failed) ⊎ (t ≡ waiting_input) ⊎ (t ≡ waiting_takeover)
    → can_transition s t ≡ true
    → s ≡ running
unfolding can_transition
outcome_from_running queued t w h = ground arith
outcome_from_running s t w h = ground arith

-- A status may be entered from `completed` or from `cancelled` never, from `failed` by requeueing.
from_terminal :
    (s t : RunStatus)
    → is_terminal s ≡ true
    → can_transition s t ≡ true
    → (s ≡ failed) × (t ≡ queued)
unfolding is_terminal can_transition
from_terminal queued t w h = ground arith
from_terminal s t w h = ground arith
