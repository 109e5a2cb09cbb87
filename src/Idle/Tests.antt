-- ===== src/Idle/Tests.antt =====
-- An idle computer is stopped, and one whose stop fails is awake again.
use rakazo.Common.{◌↔◌, truthy, true, false, [], ◌∷◌, none, some, lit, ◌≡◌, refl}
use rakazo.RunState.{waiting_takeover, completed}
use rakazo.Control.{Computer, by_none}
use rakazo.Idle.{slept, Row, Answers, awake, is_suspending, sleep_computer_if_idle}
use rakazo.Idle.Asleep.{never_left_suspending}
use rakazo.Idle.Quiet.{IsUnused, IsClaimable, IsStillClaimed, second_look, slept_iff_idle}

abbrev free_computer : Computer
free_computer = record {
  is_running = true;
  is_booting = false;
  has_provider = true;
  control_holder = by_none;
  control_lease_id = none;
  control_lease_expires_at = none;
  control_bot_id = none;
  control_run_id = none;
}

abbrev idle_row : Row
idle_row = record {
  state = awake;
  provider_ref = some (lit "c1");
  updated_at = 3;
  is_executing = false;
  has_live_lease = false;
  control = free_computer;
}

abbrev quiet_answers : Answers
quiet_answers = record {
  now = 10;
  runs_before = waiting_takeover ∷ completed ∷ [];
  checkpointed_at = 11;
  runs_after = [];
  stops = true;
}

abbrev undisturbed : Row → Row
undisturbed row = row

slept_iff_idle_example :
    ((sleep_computer_if_idle undisturbed undisturbed idle_row quiet_answers idle_row).0 ≡ slept) ↔ (
      (truthy (some (lit "c1")) ≡ true)
      × (idle_row.state ≡ awake)
      × IsUnused free_computer 10 (waiting_takeover ∷ completed ∷ [])
      × IsClaimable idle_row idle_row
      × IsUnused free_computer 10 []
      × IsStillClaimed idle_row 11 (second_look undisturbed undisturbed quiet_answers idle_row)
      × (quiet_answers.stops ≡ true))
slept_iff_idle_example = slept_iff_idle undisturbed undisturbed idle_row quiet_answers idle_row

never_left_suspending_example :
    is_suspending
      (sleep_computer_if_idle undisturbed undisturbed idle_row quiet_answers idle_row).1.state
    ≡ false
never_left_suspending_example =
    never_left_suspending undisturbed undisturbed idle_row quiet_answers idle_row refl
