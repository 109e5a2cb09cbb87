-- ===== src/Releases.antt =====
-- packages/core/src/compose-update.ts: the tags of images, the project name of Compose, the tags of
-- releases and the choice of the newest one.
pub mod Tags
pub mod Versions
