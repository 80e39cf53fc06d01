-- ===== src/Watch.antt =====
-- internal/watch/watcher.go: the watch manager and what is proved of it.
pub mod Watcher
pub mod Routing
mod Examples
pub mod Routes
pub mod Delivery
pub mod Sends
pub mod History
