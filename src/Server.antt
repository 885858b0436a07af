-- ===== src/Server.antt =====
-- internal/server: the HTTP interface of the agent.
pub mod Gate
pub mod Requests
pub mod Handlers
pub mod Exec
pub mod Serve
pub mod Parts
pub mod Sound
pub mod Steps
pub mod Life
pub mod Braked
pub mod Blocked
pub mod Start
pub mod Brake
