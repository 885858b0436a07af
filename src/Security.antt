-- ===== src/Security.antt =====
-- internal/security: who may talk to the agent, how often, and under which address.
pub mod Blocklist
pub mod Standing
pub mod RateLimiter
pub mod Rates
pub mod Auth
pub mod ClientIp
