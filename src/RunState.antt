-- ===== src/RunState.antt =====
-- packages/core/src/run-state.ts: the status of a run, the table of allowed transitions, and the
-- tests on a status. `assertTransition` throws, so it returns a `Result`.
pub mod Table
pub mod Traces
mod Tests
use rakazo.Common.{ℕ, ◌+◌, Bool, not, List, [], ◌∷◌, any, ◌==◌, if◌then◌else◌, Result, ok, err}

pub data RunStatus : Type 0 where
  queued leased running waiting_input waiting_takeover completed failed cancelled : RunStatus

abbrev status_code : RunStatus → ℕ
status_code queued = 0
status_code leased = 1
status_code running = 2
status_code waiting_input = 3
status_code waiting_takeover = 4
status_code completed = 5
status_code failed = 6
status_code cancelled = 7

-- `a === b` on statuses
abbrev pub status_eq : RunStatus → RunStatus → Bool
status_eq a b = status_code a == status_code b

-- `list.includes(status)`
abbrev pub includes : List RunStatus → RunStatus → Bool
includes xs s = any (λ x. status_eq x s) xs

abbrev pub active_run_statuses : List RunStatus
active_run_statuses = queued ∷ leased ∷ running ∷ waiting_input ∷ waiting_takeover ∷ []

abbrev terminal_statuses : List RunStatus
terminal_statuses = completed ∷ failed ∷ cancelled ∷ []

abbrev pub allowed : RunStatus → List RunStatus
allowed queued = leased ∷ cancelled ∷ []
allowed leased = running ∷ queued ∷ cancelled ∷ []
allowed running = waiting_input ∷ waiting_takeover ∷ completed ∷ failed ∷ cancelled ∷ leased ∷ []
allowed waiting_input = queued ∷ leased ∷ cancelled ∷ []
allowed waiting_takeover = queued ∷ leased ∷ cancelled ∷ []
allowed completed = []
allowed failed = queued ∷ []
allowed cancelled = []

pub can_transition : RunStatus → RunStatus → Bool
can_transition from to = includes (allowed from) to

pub record IllegalTransition : Type 0 where
  pub from : RunStatus
  pub to : RunStatus

pub assert_transition : RunStatus → RunStatus → Result IllegalTransition (Unit {0})
unfolding can_transition
assert_transition from to =
    if not (can_transition from to) then err (record { from = from; to = to }) else ok tt

pub is_active : RunStatus → Bool
is_active s = includes active_run_statuses s

pub is_terminal : RunStatus → Bool
is_terminal s = includes terminal_statuses s

next_fence : ℕ → ℕ
next_fence current = current + 1
