-- ===== src/Live.antt =====
-- packages/core/src/events.ts: the blocks of a message that is still being written, and the messages
-- that a thread's events add up to.
pub mod Blocks
pub mod Projection
mod Tests
