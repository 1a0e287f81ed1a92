-- ===== src/Configuration.antt =====
-- core/configuration.
pub mod Privacy
pub mod Server
pub mod Beacon
