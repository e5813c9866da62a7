-- ===== src/Chromesweep.antt =====
-- The package chromesweep.
pub mod Versions
pub mod Logs
pub mod Policies
pub mod Report
pub mod Bundle
pub mod Objects
pub mod Retarget
pub mod Host
pub mod Cluster
pub mod Config
pub mod Sweep
