-- ===== src/Updater.antt =====
-- internal/updater: what decides whether a release replaces the agent, and the replacement.
pub mod Version
pub mod Config
pub mod Run
pub mod Ordering
pub mod Host
pub mod Verify
pub mod EqualBytes
pub mod Update
pub mod Check
pub mod Moves
pub mod Rollback
pub mod Install
pub mod Files
pub mod Fetched
pub mod Accepts
pub mod Safety
pub mod Newer
