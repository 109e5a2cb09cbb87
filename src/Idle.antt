-- ===== src/Idle.antt =====
-- packages/adapters/src/computer-idle.ts, `sleepComputerIfIdle` from the row it loads last: the runs that
-- keep a computer awake, the claim of the row, the second look, and the stop. What others do to the row
-- between the claim and the second look, and during the stop, are the arguments `between` and `during`;
-- the statuses of the computer's runs at either look, and whether the stop succeeds, are answers.
pub mod Asleep
pub mod Quiet
mod Tests
use rakazo.Common.{
  ℕ, ◌==◌, Bool, true, false, ◌&&◌, ◌||◌, not, List, any, select, Option, none, some, Text, text_eq,
  truthy, if◌then◌else◌,
}
use rakazo.RunState.{RunStatus, waiting_takeover, includes, active_run_statuses, status_eq}
use rakazo.Control.{Computer, by_none, same_id, has_active_computer_control}

pub data ComputerState : Type 0 where
  awake suspending suspended : ComputerState
  other_state : Text → ComputerState

pub record Row : Type 0 where
  pub state : ComputerState
  pub provider_ref : Option Text
  pub updated_at : ℕ
  pub is_executing : Bool
  pub has_live_lease : Bool
  pub control : Computer

pub record Answers : Type 0 where
  pub now : ℕ
  pub runs_before : List RunStatus
  pub checkpointed_at : ℕ
  pub runs_after : List RunStatus
  pub stops : Bool

pub data SleepOutcome : Type 0 where
  ignored rescheduled slept stop_failed : SleepOutcome

abbrev pub is_awake : ComputerState → Bool
is_awake awake = true
is_awake _ = false

abbrev pub is_suspending : ComputerState → Bool
is_suspending suspending = true
is_suspending _ = false

-- A run that waits for a takeover keeps the computer awake only under an active control.
pub active_statuses : Computer → ℕ → List RunStatus
active_statuses control now =
    if has_active_computer_control control now
    then active_run_statuses
    else select (λ s. not (status_eq s waiting_takeover)) active_run_statuses

pub find_active_run : List RunStatus → List RunStatus → Bool
find_active_run statuses runs = any (includes statuses) runs

-- The `updateMany` to `suspending`: the row as it was read, with nothing executing.
pub can_suspend : Row → Row → Bool
can_suspend computer row =
    is_awake row.state
    && same_id row.provider_ref computer.provider_ref
    && row.updated_at == computer.updated_at
    && not row.is_executing
    && not row.has_live_lease

-- `updateMany({ where: { state: "suspending" }, data: { state: "running" } })`
pub roll_back : Row → Row
roll_back row = if is_suspending row.state then record row { state = awake } else row

pub suspended_row : Row → Row
suspended_row row = record row {
  state = suspended;
  control = record row.control {
    control_holder = by_none;
    control_lease_id = none;
    control_lease_expires_at = none;
    control_bot_id = none;
    control_run_id = none;
  };
}

stopped : Bool → Row → SleepOutcome × Row
unfolding suspended_row roll_back
stopped true row = (slept, suspended_row row)
stopped false row = (stop_failed, roll_back row)

pub is_unchanged : Row → ℕ → Row → Bool
is_unchanged computer checkpointed_at current =
    is_suspending current.state
    && same_id current.provider_ref computer.provider_ref
    && current.updated_at == checkpointed_at

module _ (between during : Row → Row) where
  -- After the claim.
  claimed : Row → Answers → Row → SleepOutcome × Row
  unfolding roll_back stopped is_unchanged find_active_run
  claimed computer answers row =
      let current = between row in
      let outcome = stopped answers.stops (during current) in
      if find_active_run (active_statuses computer.control answers.now) answers.runs_after
        || not (is_unchanged computer answers.checkpointed_at current)
      then (rescheduled, roll_back current)
      else outcome

  pub sleep_computer_if_idle : Row → Answers → Row → SleepOutcome × Row
  unfolding claimed can_suspend active_statuses find_active_run
  sleep_computer_if_idle computer answers row =
      let outcome =
        claimed computer answers
          (record row { state = suspending; updated_at = answers.checkpointed_at }) in
      if not (truthy computer.provider_ref) || not (is_awake computer.state)
      then (ignored, row)
      else if find_active_run (active_statuses computer.control answers.now) answers.runs_before
          || not (can_suspend computer row)
      then (rescheduled, row)
      else outcome
