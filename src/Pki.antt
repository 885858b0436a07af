-- ===== src/Pki.antt =====
-- cmd/pki/main.go: the tool that makes the certificate authority and the certificates of targets.
pub mod Names
pub mod Defs
pub mod Output
pub mod Commands
pub mod Keeping
pub mod Overwrite
pub mod Chain
