-- ===== src/Reconciler/Pass/Tests.antt =====
-- Two passes over three due runs, two at a time.
use rakazo.Common.{
  ℕ, Bool, false, List, [], ◌∷◌, none, some, Text, lit, take, select, map, ◌≡◌, refl, arith,
}
use rakazo.RunState.{queued, running, completed}
use rakazo.Reconciler.Pass.{RunRow, Database, State, run_job, run_due, run_after, passes}
use rakazo.Reconciler.Pass.Runs.{run_jobs, due_runs_enqueued}

abbrev run_row : Text → ℕ → RunRow
run_row id at = record { id = id; status = queued; lease_expires_at = none; updated_at = at }

abbrev expired_row : RunRow
expired_row = record { id = lit "b"; status = running; lease_expires_at = some 5; updated_at = 2 }

abbrev finished_row : RunRow
finished_row = record { id = lit "x"; status = completed; lease_expires_at = none; updated_at = 2 }

abbrev run_table : List RunRow
run_table = run_row (lit "a") 1 ∷ expired_row ∷ finished_row ∷ run_row (lit "c") 3 ∷ []

abbrev due_table : List RunRow
due_table = run_row (lit "a") 1 ∷ expired_row ∷ run_row (lit "c") 3 ∷ []

abbrev test_database : Database
test_database = record {
  find_runs = λ p n. take n (select p run_table);
  find_routines = λ p n. [];
  find_computers = λ p n. [];
}

abbrev idle_state : State
idle_state = record {
  run_cursor = none;
  routine_cursor = none;
  control_cursor = none;
  control_scan_deadline = none;
}

abbrev no_order : Text → Text → Bool
no_order a b = false

abbrev no_date : ℕ → Text
no_date at = []

due_runs_enqueued_example :
    let (ps, after) = passes no_order no_date test_database 2 (10 ∷ 20 ∷ []) idle_state in
    (run_jobs ps ≡ map run_job due_table) × (after.run_cursor ≡ none)
unfolding run_due run_after
due_runs_enqueued_example =
    due_runs_enqueued no_order no_date test_database 2 run_table due_table (10 ∷ 20 ∷ []) idle_state
      (λ p n. refl) (refl, (refl, tt)) (omega arith)
      (refl, ((refl, refl), ((refl, refl), tt)), (refl, ((refl, refl), tt), (refl, tt, tt))) refl
      refl
