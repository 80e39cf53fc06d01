-- ===== src/Lease.antt =====
-- internal/lease/lease.go: the lease manager and what is proved of it.
pub mod Manager
pub mod Links
pub mod Expiry
pub mod Terms
pub mod History
mod Examples
