-- ===== src/Gubald.antt =====
-- cmd/gubald.
pub mod Comments
pub mod Service
pub mod Session
pub mod Sweeps
pub mod Clients
pub mod Startup
