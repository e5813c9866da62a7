-- ===== src/Examples.antt =====
-- The theorems at concrete inputs.
mod Hosts
mod Letters
mod Sweeps
mod Loading
mod Reporting
mod Objects
mod Serving
mod Flags
mod Requests
mod Commands
mod Browser
