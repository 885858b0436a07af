-- ===== src/Agent.antt =====
-- cmd/agent/main_windows.go: the agent's command line and its Windows service.
pub mod Token
pub mod Service
pub mod Run
