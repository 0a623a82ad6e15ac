-- ===== src/Examples.antt =====
-- The theorems at concrete inputs.
pub mod Parts
mod Logs
mod Segments
pub mod Stores
mod Queries
mod Replicas
mod Helpers
pub mod Clients
mod Indexes
mod Streams
mod Connections
pub mod Directories
mod Restarts
mod Runs
mod Restarted
mod Programs
mod Terminals
