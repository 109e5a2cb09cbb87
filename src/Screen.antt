-- ===== src/Screen.antt =====
-- The screens of a Team Computer: packages/core/src/screen-lease.ts (a lease is `runId:fence`) and
-- the registry of assigned screens in infra/sandboxes/supervisor/src/supervisor-logic.ts.
pub mod Lease
pub mod Registry
