-- ===== src/JobQueue.antt =====
-- Background jobs: the jobs and their replace keys in packages/adapter-kit/src/background-jobs.ts, and
-- the in-memory queue of packages/adapters/src/wakeup.ts.
pub mod Jobs
pub mod Queue
