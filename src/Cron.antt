-- ===== src/Cron.antt =====
-- packages/core/src/cron.ts: the schedules of routines. Cron/Presets is the form that the user fills in,
-- Cron/Next is when a routine runs next.
pub mod Fields
pub mod Presets
pub mod Next
