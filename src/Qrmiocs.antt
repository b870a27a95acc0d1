-- ===== src/Qrmiocs.antt =====
-- src/internal/qrmiocs: what the launcher and the two hooks share.
pub mod Grant
pub mod Log
pub mod LogLevel
pub mod Metadata
pub mod Sanitize
pub mod Spool
pub mod LaunchEnv
