-- ===== src/Idle/Quiet.antt =====
-- When a computer is stopped: exactly when nothing uses it, at either look.
use rakazo.Common.{
  ℕ, Bool, true, false, not, List, [], ◌∷◌, select, Option, none, some, Text, text_eq_iff, truthy,
  All, if◌then◌else◌, ◌≡◌, ◌↔◌, arith,
}
use rakazo.RunState.{
  RunStatus, queued, leased, running, waiting_input, waiting_takeover, includes, status_eq,
  active_run_statuses,
}
use rakazo.Control.{Computer, same_id, has_active_computer_control}
use rakazo.Idle.{
  ComputerState, Row, Answers, slept, is_awake, is_suspending, awake, suspending, active_statuses,
  find_active_run, can_suspend, stopped, is_unchanged, claimed, sleep_computer_if_idle,
}

-- A run of this status uses the computer; one that waits for a takeover does under an active control.
abbrev pub UsesComputer : Bool → RunStatus → Type 0
UsesComputer controlled queued = Unit {0}
UsesComputer controlled leased = Unit {0}
UsesComputer controlled running = Unit {0}
UsesComputer controlled waiting_input = Unit {0}
UsesComputer controlled waiting_takeover = controlled ≡ true
UsesComputer controlled _ = ⊥

-- None of the runs uses the computer.
abbrev pub IsUnused : Computer → ℕ → List RunStatus → Type 0
IsUnused control now = All (λ run. ¬ UsesComputer (has_active_computer_control control now) run)

-- The row at the claim: awake, as it was read, with nothing executing and no live lease.
pub record IsClaimable (computer row : Row) : Type 0 where
  pub awake_now : row.state ≡ awake
  pub same_provider : row.provider_ref ≡ computer.provider_ref
  pub not_updated : row.updated_at ≡ computer.updated_at
  pub none_executing : row.is_executing ≡ false
  pub none_leased : row.has_live_lease ≡ false

-- The row at the second look: still the one that the claim left.
pub record IsStillClaimed (computer : Row) (checkpointed_at : ℕ) (current : Row) : Type 0 where
  pub still_suspending : current.state ≡ suspending
  pub same_provider : current.provider_ref ≡ computer.provider_ref
  pub not_updated : current.updated_at ≡ checkpointed_at

UsesComputer-iff :
    (controlled : Bool) (run : RunStatus)
    → (includes
          (if controlled
            then active_run_statuses
            else select (λ s. not (status_eq s waiting_takeover)) active_run_statuses)
          run
        ≡ false)
      ↔ (¬ UsesComputer controlled run)
UsesComputer-iff true queued = ground arith
UsesComputer-iff controlled run = ground arith

no_active_run_iff :
    (control : Computer) (now : ℕ) (runs : List RunStatus)
    → (find_active_run (active_statuses control now) runs ≡ false)
      ↔ All (λ run. ¬ UsesComputer (has_active_computer_control control now) run) runs
unfolding active_statuses find_active_run
no_active_run_iff control now [] = ground arith
no_active_run_iff control now (run ∷ runs) = ground (
  arith,
  UsesComputer-iff (has_active_computer_control control now) run,
  no_active_run_iff control now runs,
)

same_id_iff : (a b : Option Text) → (same_id a b ≡ true) ↔ (a ≡ b)
unfolding same_id
same_id_iff none none = ground arith
same_id_iff (some a) (some b) = ground (arith, text_eq_iff a b)
same_id_iff none (some b) = ground arith
same_id_iff (some a) none = ground arith

is_awake_iff : (s : ComputerState) → (is_awake s ≡ true) ↔ (s ≡ awake)
is_awake_iff s = ground arith

is_suspending_iff : (s : ComputerState) → (is_suspending s ≡ true) ↔ (s ≡ suspending)
is_suspending_iff s = ground arith

can_suspend-IsClaimable :
    (computer row : Row) → can_suspend computer row ≡ true → IsClaimable computer row
unfolding can_suspend
can_suspend-IsClaimable computer row h = record {
  awake_now = (is_awake_iff row.state).0 (ground arith);
  same_provider = (same_id_iff row.provider_ref computer.provider_ref).0 (ground arith);
  not_updated = ground arith;
  none_executing = ground arith;
  none_leased = ground arith;
}

IsClaimable-can_suspend :
    (computer row : Row) → IsClaimable computer row → can_suspend computer row ≡ true
unfolding can_suspend
IsClaimable-can_suspend computer row c = ground (
  arith,
  c.awake_now,
  c.not_updated,
  c.none_executing,
  c.none_leased,
  (same_id_iff row.provider_ref computer.provider_ref).1 c.same_provider,
)

is_unchanged-IsStillClaimed :
    (computer : Row) (at : ℕ) (current : Row)
    → is_unchanged computer at current ≡ true
    → IsStillClaimed computer at current
unfolding is_unchanged
is_unchanged-IsStillClaimed computer at current h = record {
  still_suspending = (is_suspending_iff current.state).0 (ground arith);
  same_provider = (same_id_iff current.provider_ref computer.provider_ref).0 (ground arith);
  not_updated = ground arith;
}

IsStillClaimed-is_unchanged :
    (computer : Row) (at : ℕ) (current : Row)
    → IsStillClaimed computer at current
    → is_unchanged computer at current ≡ true
unfolding is_unchanged
IsStillClaimed-is_unchanged computer at current c = ground (
  arith,
  c.still_suspending,
  c.not_updated,
  (same_id_iff current.provider_ref computer.provider_ref).1 c.same_provider,
)

module _ (between during : Row → Row) where
  -- The row as the claim leaves it, and as it is at the second look.
  abbrev pub second_look : Answers → Row → Row
  second_look answers row =
      between (record row { state = suspending; updated_at = answers.checkpointed_at })

  passed_iff :
      (computer : Row) (answers : Answers) (row : Row)
      → let active = active_statuses computer.control answers.now in
        ((sleep_computer_if_idle between during computer answers row).0 ≡ slept) ↔ (
          (truthy computer.provider_ref ≡ true)
          × (is_awake computer.state ≡ true)
          × (find_active_run active answers.runs_before ≡ false)
          × (can_suspend computer row ≡ true)
          × (find_active_run active answers.runs_after ≡ false)
          × (is_unchanged computer answers.checkpointed_at (second_look answers row) ≡ true)
          × (answers.stops ≡ true))
  unfolding sleep_computer_if_idle claimed stopped
  passed_iff computer answers row = ground arith

  -- The computer is stopped if and only if: it was read as awake at a provider; no run uses it, before
  -- the checkpoint and again after the claim, where a run that waits for a takeover uses it only under
  -- an active control; the claim finds it awake, as it was read, with nothing executing and no live
  -- lease; at the second look it is as the claim left it; and the provider stops it.
  pub slept_iff_idle :
      (computer : Row) (answers : Answers) (row : Row)
      → ((sleep_computer_if_idle between during computer answers row).0 ≡ slept) ↔ (
          (truthy computer.provider_ref ≡ true)
          × (computer.state ≡ awake)
          × IsUnused computer.control answers.now answers.runs_before
          × IsClaimable computer row
          × IsUnused computer.control answers.now answers.runs_after
          × IsStillClaimed computer answers.checkpointed_at (second_look answers row)
          × (answers.stops ≡ true))
  slept_iff_idle computer answers row = (
    (λ h.
        let (t, a, f, c, g, u, s) = (passed_iff computer answers row).0 h in
        (
          t,
          (is_awake_iff computer.state).0 a,
          (no_active_run_iff computer.control answers.now answers.runs_before).0 f,
          can_suspend-IsClaimable computer row c,
          (no_active_run_iff computer.control answers.now answers.runs_after).0 g,
          is_unchanged-IsStillClaimed computer answers.checkpointed_at (second_look answers row) u,
          s,
        )),
    (λ (t, a, f, c, g, u, s). (passed_iff computer answers row).1 (
      t,
      (is_awake_iff computer.state).1 a,
      (no_active_run_iff computer.control answers.now answers.runs_before).1 f,
      IsClaimable-can_suspend computer row c,
      (no_active_run_iff computer.control answers.now answers.runs_after).1 g,
      IsStillClaimed-is_unchanged computer answers.checkpointed_at (second_look answers row) u,
      s,
    )),
  )
