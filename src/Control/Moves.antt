-- ===== src/Control/Moves.antt =====
-- What happens to the row of a computer: the writers of its control, in any order.
use rakazo.Common.{none, ℕ, Bool, false, List, [], ◌∷◌, Option, Text, text_eq, ◌≡◌}
use rakazo.Control.{
  Holder, by_none, Computer, has_active_computer_control, extend_active_computer_control,
  begin_expire, finalize_computer_control_release, grant_takeover, grant_teaching,
  activate_computer,
}

-- What may happen to the row; a caller's copy of it may be of any age. `changes_state` is a claim of
-- a boot, of a stop or of a sleep, and `clears` what the end of a stop, a reset or a sleep writes.
pub data ControlMove : Type 0 where
  grants : Text → ℕ → Text → Option Text → ControlMove
  extends : Option ℕ → Computer → Text → ℕ → ℕ → ControlMove
  begins_expiry : Computer → Text → ℕ → ControlMove
  finalizes : Text → Option Text → Text → Holder → Bool → ControlMove
  teaches : Text → ℕ → Text → ControlMove
  changes_state : Bool → Bool → ControlMove
  activates : Computer → Holder → Bool → ℕ → ControlMove
  clears : ControlMove

unfoldable pub control_step : ControlMove → Computer → Computer
control_step (grants lease_id at bot_id run_id) row =
    (grant_takeover lease_id at bot_id run_id row).1
control_step (extends ttl computer bot_id until now) row =
    (extend_active_computer_control ttl computer bot_id until now row).1
control_step (begins_expiry computer lease_id now) row = (begin_expire computer lease_id now row).1
control_step (finalizes bot_id run_id lease_id holder waits) row =
    (finalize_computer_control_release bot_id run_id lease_id holder waits row).1
control_step (teaches lease_id at bot_id) row = (grant_teaching lease_id at bot_id row).1
control_step (changes_state is_running is_booting) row = record row {
  is_running = is_running;
  is_booting = is_booting;
}
control_step (activates existing holder bot_is_there now) row =
    (activate_computer existing holder bot_is_there now row).1
control_step clears row = record row {
  control_holder = by_none;
  control_lease_id = none;
  control_lease_expires_at = none;
  control_bot_id = none;
  control_run_id = none;
}

unfoldable pub control_history : List ControlMove → Computer → Computer
unfolding control_step
control_history [] row = row
control_history (m ∷ ms) row = control_history ms (control_step m row)

-- No move grants this lease: leases are new random numbers; and no boot ends that began under an active
-- control.
abbrev pub Fresh : Text → ControlMove → Type 0
Fresh lease (grants lease_id at bot_id run_id) = text_eq lease_id lease ≡ false
Fresh lease (teaches lease_id at bot_id) = text_eq lease_id lease ≡ false
Fresh lease (activates existing holder bot_is_there now) =
    has_active_computer_control existing now ≡ false
Fresh lease _ = Unit {0}
