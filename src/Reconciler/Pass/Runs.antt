-- ===== src/Reconciler/Pass/Runs.antt =====
-- Every run that is due is put back on the queue.
use rakazo.Common.{
  ℕ, suc, ◌/◌, ◌<◌, Bool, true, List, [], ◌∷◌, ◌++◌, map, Option, none, some, Text, length, All,
  ◌≡◌, refl, sym, ap, ◌∙◌,
}
use rakazo.JobQueue.Jobs.{BackgroundJob}
use rakazo.Reconciler.Lanes.{page}
use rakazo.Reconciler.Lanes.Cover.{scan, scan_covers, Ordered, Answers, SameDue}
use rakazo.Reconciler.Pass.{
  Cursor, RunRow, Database, State, Pass, run_due, run_after, run_cursor_of, run_job, reconcile_once,
  reconciled, passes,
}

map-append : {A B : Type 0} (f : A → B) (xs ys : List A) → map f (xs ++ ys) ≡ map f xs ++ map f ys
map-append f [] ys = refl
map-append f (x ∷ xs) ys = ap (◌∷◌ (f x)) (map-append f xs ys)

-- The jobs for runs that the passes enqueue, in order.
pub run_jobs : List Pass → List BackgroundJob
run_jobs [] = []
run_jobs (p ∷ ps) = p.runs ++ run_jobs ps

-- Where a row of the table of runs stands.
abbrev pub run_place : RunRow → Cursor
run_place row = record { at = row.updated_at; id = row.id }

length-map : {A B : Type 0} (f : A → B) (xs : List A) → length (map f xs) ≡ length xs
length-map f [] = refl
length-map f (x ∷ xs) = ap suc (length-map f xs)

Cursors-run : (rows : List RunRow) → All (λ row. run_cursor_of row ≡ some (run_place row)) rows
unfolding run_cursor_of
Cursors-run [] = tt
Cursors-run (x ∷ xs) = (refl, Cursors-run xs)

module _ (id_gt : Text → Text → Bool) (show_date : ℕ → Text) (db : Database) (batch_size : ℕ) where
  abbrev run_scan : List ℕ → Option Cursor → List RunRow × Option Cursor
  run_scan nows c =
      scan (run_after id_gt) run_place db.find_runs run_cursor_of batch_size (map run_due nows) c

  passes-scan :
      (nows : List ℕ) (s : State)
      → let (ps, after) = passes id_gt show_date db batch_size nows s in
        let (rows, last) = run_scan nows s.run_cursor in
        (run_jobs ps ≡ map run_job rows) × (after.run_cursor ≡ last)
  unfolding passes run_jobs scan reconcile_once reconciled
  passes-scan [] s = (refl, refl)
  passes-scan (now ∷ nows) s =
      let after = (reconcile_once id_gt show_date db batch_size true now s).1 in
      let rows = page db.find_runs (run_due now) (run_after id_gt) batch_size s.run_cursor in
      let (jobs, last) = passes-scan nows after in
      (
        ap (◌++◌ (map run_job rows)) jobs
            ∙ sym (map-append run_job rows (run_scan nows after.run_cursor).0),
        last,
      )

  -- A leader's passes, one more than there are full pages of due runs, beginning with no cursor,
  -- enqueue the continuation of every due run once, in order, and end with no cursor, so that the next
  -- pass begins anew; provided the runs that are due are the same at each pass, stand in the order of
  -- the query, the batch size is positive, and the database answers a query with the first rows of the
  -- table that satisfy it.
  pub due_runs_enqueued :
      (table rows : List RunRow) (nows : List ℕ) (s : State)
      → Answers (run_after id_gt) run_place db.find_runs run_cursor_of batch_size table
      → SameDue
          (run_after id_gt)
          run_place
          db.find_runs
          run_cursor_of
          batch_size
          table
          rows
          (map run_due nows)
      → 0 < batch_size
      → Ordered (run_after id_gt) run_place rows
      → length nows ≡ suc (length rows / batch_size)
      → s.run_cursor ≡ none
      → let (ps, after) = passes id_gt show_date db batch_size nows s in
        (run_jobs ps ≡ map run_job rows) × (after.run_cursor ≡ none)
  due_runs_enqueued table rows nows s answers due pos ord count fresh =
      let (jobs, last) = passes-scan nows s in
      let covers =
        ap (run_scan nows) fresh
        ∙ scan_covers (run_after id_gt) run_place db.find_runs run_cursor_of batch_size table rows
            (map run_due nows) answers due pos ord (Cursors-run rows)
            (length-map run_due nows ∙ count) in
      (jobs ∙ ap (λ p. map run_job p.0) covers, last ∙ ap (λ p. p.1) covers)
