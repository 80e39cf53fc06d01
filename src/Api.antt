-- ===== src/Api.antt =====
-- internal/api/server.go: the HTTP handlers over the storage engine, and what is proved of them.
pub mod Requests
pub mod Server
pub mod Handlers
pub mod Transactions
pub mod Answers
pub mod Rejections
pub mod Sessions
pub mod Openness
pub mod Sequences
mod Examples
