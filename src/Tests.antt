-- ===== src/Tests.antt =====
-- Runs at concrete inputs, on nodes that are kept in memory.
pub mod Node
pub mod Fds
pub mod Servers
pub mod Clients
pub mod Sharing
pub mod Sessions
pub mod Crashes
pub mod Epochs
pub mod Locks
pub mod Waits
pub mod Timers
pub mod Tracking
pub mod Starts
pub mod Counters
pub mod Hits
pub mod Movers
pub mod Messages
pub mod Transparent
pub mod Fallback
