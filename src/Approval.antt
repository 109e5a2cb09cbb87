-- ===== src/Approval.antt =====
-- packages/core/src/action-approval.ts: which tool calls ask the user first. The regular expressions
-- are case-insensitive over ASCII letters, which `ascii_lower` is; `toLowerCase` on other text is the
-- runtime's, the parameter `to_lower`.
pub mod Words
pub mod Rules
pub mod Gate
mod Tests
