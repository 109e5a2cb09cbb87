-- ===== src/Reconciler/Pass.antt =====
-- packages/adapters/src/job-reconciler.ts, `reconcileOnce`: the three queries, the jobs that the rows
-- become, and the cursors for the next pass. A `Date` is its time in milliseconds; the order of ids in
-- the database is the argument `id_gt`. The jobs are those that are enqueued; a pass of a process that
-- is not the leader does nothing.
pub mod Runs
mod Tests
use rakazo.Common.{
  ℕ, ◌+◌, ◌==◌, ltb, leb, Bool, true, false, ◌&&◌, ◌||◌, not, List, [], ◌∷◌, ◌++◌, map, Option,
  none, some, Text, truthy, or_empty, is_some, if◌then◌else◌,
}
use rakazo.RunState.{RunStatus, includes, queued, leased, running}
use rakazo.JobQueue.Jobs.{
  BackgroundJob, run_continue_job, routine_wakeup_job, computer_control_expire_job,
}
use rakazo.Reconciler.Lanes.{page, next_cursor}

abbrev routine_lookahead_ms : ℕ
routine_lookahead_ms = 60000

abbrev control_lookahead_ms : ℕ
control_lookahead_ms = 60000

pub record Cursor : Type 0 where
  pub at : ℕ
  pub id : Text

pub record ControlCursor : Type 0 where
  pub at : Option ℕ
  pub id : Text

pub record RunRow : Type 0 where
  pub id : Text
  pub status : RunStatus
  pub lease_expires_at : Option ℕ
  pub updated_at : ℕ

pub record RoutineRow : Type 0 where
  pub id : Text
  pub is_active : Bool
  pub next_run_at : Option ℕ

pub record ComputerRow : Type 0 where
  pub id : Text
  pub control_bot_id : Option Text
  pub control_lease_id : Option Text
  pub control_lease_expires_at : Option ℕ

pub record Database : Type 0 where
  pub find_runs : (RunRow → Bool) → ℕ → List RunRow
  pub find_routines : (RoutineRow → Bool) → ℕ → List RoutineRow
  pub find_computers : (ComputerRow → Bool) → ℕ → List ComputerRow

pub record State : Type 0 where
  pub run_cursor : Option Cursor
  pub routine_cursor : Option Cursor
  pub control_cursor : Option ControlCursor
  pub control_scan_deadline : Option ℕ

-- What a pass enqueues.
pub record Pass : Type 0 where
  pub runs : List BackgroundJob
  pub routines : List BackgroundJob
  pub controls : List BackgroundJob

-- `{ lte: time }`, which no null satisfies
abbrev is_by : Option ℕ → ℕ → Bool
is_by none time = false
is_by (some at) time = leb at time

abbrev is_at : Option ℕ → ℕ → Bool
is_at none time = false
is_at (some at) time = at == time

abbrev is_later : Option ℕ → ℕ → Bool
is_later none time = false
is_later (some at) time = ltb time at

abbrev is_status : List RunStatus → RunStatus → Bool
is_status = includes

pub run_due : ℕ → RunRow → Bool
run_due now row =
    is_status (queued ∷ []) row.status
    || is_status (leased ∷ running ∷ []) row.status && is_by row.lease_expires_at now

pub routine_due : ℕ → RoutineRow → Bool
routine_due now row = row.is_active && is_by row.next_run_at (now + routine_lookahead_ms)

pub control_due : ℕ → ComputerRow → Bool
control_due deadline row =
    is_some row.control_lease_id
    && (not (is_some row.control_lease_expires_at) || is_by row.control_lease_expires_at deadline)

pub run_cursor_of : RunRow → Option Cursor
run_cursor_of row = some (record { at = row.updated_at; id = row.id })

abbrev routine_cursor_at : Option ℕ → Text → Option Cursor
routine_cursor_at none id = none
routine_cursor_at (some at) id = some (record { at = at; id = id })

routine_cursor_of : RoutineRow → Option Cursor
routine_cursor_of row = routine_cursor_at row.next_run_at row.id

control_cursor_of : ComputerRow → Option ControlCursor
control_cursor_of row = some (record { at = row.control_lease_expires_at; id = row.id })

pub run_job : RunRow → BackgroundJob
run_job row = run_continue_job row.id

routine_jobs : (ℕ → Text) → Text → Option ℕ → List BackgroundJob
routine_jobs show_date id none = []
routine_jobs show_date id (some at) = routine_wakeup_job show_date id at ∷ []

abbrev or_now : Option ℕ → ℕ → ℕ
or_now none now = now
or_now (some at) now = at

control_jobs : ℕ → ComputerRow → List BackgroundJob
control_jobs now row =
    if truthy row.control_bot_id
    then computer_control_expire_job row.id (or_empty row.control_lease_id)
        (or_now row.control_lease_expires_at now)
      ∷ []
    else []

-- `rows.flatMap(f)`
flat_map : {A B : Type 0} → (A → List B) → List A → List B
flat_map f [] = []
flat_map f (x ∷ xs) = f x ++ flat_map f xs

module _ (id_gt : Text → Text → Bool) where
  pub run_after : Cursor → RunRow → Bool
  run_after c row = ltb c.at row.updated_at || row.updated_at == c.at && id_gt row.id c.id

  routine_after : Cursor → RoutineRow → Bool
  routine_after c row =
      is_later row.next_run_at c.at || is_at row.next_run_at c.at && id_gt row.id c.id

  control_after_at : Option ℕ → Text → ComputerRow → Bool
  control_after_at none id row = not (is_some row.control_lease_expires_at) && id_gt row.id id
  control_after_at (some at) id row =
      is_later row.control_lease_expires_at at
      || is_at row.control_lease_expires_at at && id_gt row.id id
      || not (is_some row.control_lease_expires_at)

  control_after : ControlCursor → ComputerRow → Bool
  control_after c row = control_after_at c.at c.id row

module _ (id_gt : Text → Text → Bool) (show_date : ℕ → Text) (db : Database) (batch_size : ℕ) where
  reconciled : ℕ → ℕ → State → Pass × State
  unfolding routine_jobs
  reconciled now deadline s =
      let runs = page db.find_runs (run_due now) (run_after id_gt) batch_size s.run_cursor in
      let routines =
        page db.find_routines (routine_due now) (routine_after id_gt) batch_size s.routine_cursor in
      let controls =
        page db.find_computers (control_due deadline) (control_after id_gt) batch_size
          s.control_cursor in
      let control_cursor = next_cursor batch_size control_cursor_of controls in
      (
        record {
          runs = map run_job runs;
          routines = flat_map (λ r. routine_jobs show_date r.id r.next_run_at) routines;
          controls = flat_map (control_jobs now) controls;
        },
        record {
          run_cursor = next_cursor batch_size run_cursor_of runs;
          routine_cursor = next_cursor batch_size routine_cursor_of routines;
          control_cursor = control_cursor;
          control_scan_deadline = if is_some control_cursor then some deadline else none;
        },
      )

  -- A pass at a time, by a process that is the leader or not.
  pub reconcile_once : Bool → ℕ → State → Pass × State
  unfolding reconciled
  reconcile_once false now s = (record { runs = []; routines = []; controls = [] }, s)
  reconcile_once true now s =
      reconciled now (or_now s.control_scan_deadline (now + control_lookahead_ms)) s

  -- Passes of the leader at successive times.
  pub passes : List ℕ → State → List Pass × State
  unfolding reconcile_once
  passes [] s = ([], s)
  passes (now ∷ later) s =
      let (first, after) = reconcile_once true now s in
      let (more, last) = passes later after in (first ∷ more, last)
