-- ===== src/Powershell.antt =====
-- internal/powershell: the output buffer, the frame protocol, the persistent sessions and the runner.
pub mod Buffer
pub mod Frame
pub mod Framing
pub mod Results
pub mod Lines
pub mod Wrapper
pub mod Inert
pub mod Session
pub mod Owned
pub mod Killed
pub mod Leaks
pub mod Unlisted
pub mod Runner
pub mod RunnerBlock
