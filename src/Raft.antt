-- ===== src/Raft.antt =====
-- internal/raft/raft.go: a Raft node and its handlers, and what is proved of them.
pub mod Node
pub mod Election
pub mod Replication
pub mod Frame
pub mod Steps
pub mod Runtime
pub mod Accounts
pub mod Balances
pub mod Arrivals
pub mod Turns
pub mod Interleaving
pub mod Silence
pub mod Votes
pub mod Ballots
pub mod Leadership
pub mod Logs
pub mod Applied
pub mod Commits
pub mod Sync
pub mod RoundTrip
pub mod Examples
mod ElectionTests
mod ReplicationTests
pub mod StateMachine
pub mod Replicas
pub mod Snapshots
pub mod Copies
mod StateTests
mod RuntimeTests
