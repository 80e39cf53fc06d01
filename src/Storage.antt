-- ===== src/Storage.antt =====
-- internal/storage/engine.go: the storage engine and what is proved of it.
pub mod Engine
pub mod Data
pub mod Queries
pub mod Logging
pub mod Durability
pub mod Persistence
pub mod Snapshots
pub mod Safekeeping
pub mod Reads
pub mod Swaps
mod Examples
mod RestartTests
mod DeleteTests
pub mod Ranges
pub mod Answers
pub mod Leases
pub mod Batches
pub mod BatchRecovery
