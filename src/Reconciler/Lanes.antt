-- ===== src/Reconciler/Lanes.antt =====
-- packages/adapters/src/job-reconciler.ts, what `reconcileOnce` does with each of its three tables: it
-- asks for the due rows after its cursor, at most `batchSize` of them in order, and its next cursor is
-- the last row of a full page, else none. The database is the argument `find_many`, which answers a
-- condition and a limit.
pub mod Cover
use rakazo.Common.{
  ℕ, Bool, true, ◌&&◌, List, ◌++◌, Option, none, some, length, last?, ◌==◌, if◌then◌else◌,
}

module _ {Row Cursor : Type 0} where
  abbrev bind_cursor : (Row → Option Cursor) → Option Row → Option Cursor
  bind_cursor cursor_of none = none
  bind_cursor cursor_of (some row) = cursor_of row

  pub next_cursor : ℕ → (Row → Option Cursor) → List Row → Option Cursor
  next_cursor batch_size cursor_of rows =
      if length rows == batch_size then bind_cursor cursor_of (last? rows) else none

  -- The condition that a cursor adds to the query.
  abbrev pub after_cursor : (Cursor → Row → Bool) → Option Cursor → Row → Bool
  after_cursor is_after none row = true
  after_cursor is_after (some c) row = is_after c row

  -- `findMany` with the condition of the table and that of the cursor
  pub page :
      ((Row → Bool) → ℕ → List Row)
      → (Row → Bool)
      → (Cursor → Row → Bool)
      → ℕ
      → Option Cursor
      → List Row
  page find_many is_due is_after batch_size cursor =
      find_many (λ row. is_due row && after_cursor is_after cursor row) batch_size
