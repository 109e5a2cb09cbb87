-- ===== src/Control/Tests.antt =====
-- A lease that expires while an extension is under way.
use rakazo.Common.{◌≢◌, true, false, ◌&&◌, List, [], ◌∷◌, none, some, lit, text_eq, ◌≡◌, refl}
use rakazo.Control.{
  extended, extend_active_computer_control, by_user, by_none, Computer, same_id, begin_expire,
  claim_row, has_active_computer_control,
}
use rakazo.Control.Moves.{
  ControlMove, grants, extends, finalizes, changes_state, activates, teaches, control_history,
}
use rakazo.Control.Revoked.{revoked_stays_revoked}

abbrev held_computer : Computer
held_computer = record {
  is_running = true;
  is_booting = false;
  has_provider = true;
  control_holder = by_user;
  control_lease_id = some (lit "l1");
  control_lease_expires_at = some 10;
  control_bot_id = some (lit "b");
  control_run_id = none;
}

abbrev late_moves : List ControlMove
late_moves =
    extends none held_computer (lit "b") 99 5
    ∷ finalizes (lit "b") none (lit "l1") by_none false
    ∷ grants (lit "l2") 50 (lit "b") none
    ∷ extends none held_computer (lit "b") 99 5
    ∷ changes_state false true
    ∷ activates held_computer by_none true 30
    ∷ teaches (lit "l3") 70 (lit "b")
    ∷ []

boot_finds_none : has_active_computer_control held_computer 30 ≡ false
unfolding has_active_computer_control
boot_finds_none = refl

revoked_stays_revoked_example :
    let after =
      control_history late_moves (begin_expire held_computer (lit "l1") 20 held_computer).1 in
    ((same_id after.control_lease_id (some (lit "l1")) && has_active_computer_control after 21)
      ≡ false)
    × ((extend_active_computer_control none held_computer (lit "b") 99 21 after).0
        ≢ extended (lit "l1") 120)
unfolding begin_expire claim_row same_id text_eq
revoked_stays_revoked_example =
    revoked_stays_revoked held_computer held_computer (lit "l1") 20 (lit "b") none late_moves 21
      none held_computer (lit "b") 99 120 refl
      (tt, (tt, (refl, (tt, (tt, (boot_finds_none, (refl, tt)))))))
