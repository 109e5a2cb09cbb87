-- ===== src/Reconciler.antt =====
-- packages/adapters/src/job-reconciler.ts: the passes that put due work back on the job queue.
-- Reconciler/Lanes is how a pass goes through one table page by page, Reconciler/Pass is the whole pass.
pub mod Lanes
pub mod Pass
pub mod Leadership
