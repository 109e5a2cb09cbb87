-- ===== src/Idle/Asleep.antt =====
-- A computer is never left half asleep.
use rakazo.Common.{Bool, true, false, ◌||◌, not, truthy, if◌then◌else◌, ◌≡◌, refl}
use rakazo.Idle.{
  Row, Answers, SleepOutcome, ignored, rescheduled, is_awake, is_suspending, awake, suspending,
  active_statuses, find_active_run, can_suspend, roll_back, suspended_row, stopped, is_unchanged,
  claimed, sleep_computer_if_idle,
}

if_awake :
    (b : Bool) (x y : Row)
    → is_suspending x.state ≡ false
    → (b ≡ false → is_suspending y.state ≡ false)
    → is_suspending (if b then x else y).state ≡ false
if_awake true x y h g = h
if_awake false x y h g = g refl

roll_back-state : (row : Row) → is_suspending (roll_back row).state ≡ false
unfolding roll_back
roll_back-state row =
    if_awake (is_suspending row.state) (record row { state = awake }) row refl (λ e. e)

stopped-state : (b : Bool) (row : Row) → is_suspending (stopped b row).1.state ≡ false
unfolding stopped suspended_row
stopped-state true row = refl
stopped-state false row = roll_back-state row

either_state :
    (b : Bool) (x y : SleepOutcome × Row)
    → is_suspending x.1.state ≡ false
    → is_suspending y.1.state ≡ false
    → is_suspending (if b then x else y).1.state ≡ false
either_state true x y h g = h
either_state false x y h g = g

module _ (between during : Row → Row) where
  claimed-state :
      (computer : Row) (answers : Answers) (row : Row)
      → is_suspending (claimed between during computer answers row).1.state ≡ false
  unfolding claimed
  claimed-state computer answers row =
      either_state
        (find_active_run (active_statuses computer.control answers.now) answers.runs_after
          || not (is_unchanged computer answers.checkpointed_at (between row)))
        (rescheduled, roll_back (between row)) (stopped answers.stops (during (between row)))
        (roll_back-state (between row)) (stopped-state answers.stops (during (between row)))

  -- Whatever others do to the row meanwhile, and whether the stop succeeds or fails, a row that is not
  -- suspending before the call is not suspending after it.
  pub never_left_suspending :
      (computer : Row) (answers : Answers) (row : Row)
      → is_suspending row.state ≡ false
      → is_suspending (sleep_computer_if_idle between during computer answers row).1.state ≡ false
  unfolding sleep_computer_if_idle
  never_left_suspending computer answers row h =
      either_state (not (truthy computer.provider_ref) || not (is_awake computer.state))
        (ignored, row) _ h
        (either_state
          (find_active_run (active_statuses computer.control answers.now) answers.runs_before
            || not (can_suspend computer row))
          (rescheduled, row) _ h
          (claimed-state computer answers
            (record row { state = suspending; updated_at = answers.checkpointed_at })))
