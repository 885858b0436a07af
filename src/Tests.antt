-- ===== src/Tests.antt =====
-- Runs of the development at concrete inputs.
mod Jobs
mod Security
mod Config
mod Powershell
mod Updater
mod Pki
mod Audit
mod Agent
mod Commands
mod Serve
