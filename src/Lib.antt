-- ===== src/Lib.antt =====
-- Models of the core of MyEtcd, a key-value store with Raft, leases, watches and a write-ahead log,
-- and theorems about them.
--
-- The program's parts. cmd/server starts a Raft node, a storage engine and an HTTP server. The Raft
-- node (internal/raft/raft.go) replicates a log of commands; its entries reach a state machine
-- (internal/raft/statemachine.go). The engine (internal/storage/engine.go) keeps the keys in memory,
-- logs each command to the log of internal/wal before it changes them, gives keys with a time to
-- live a lease (internal/lease/lease.go), and announces changes to the watch manager
-- (internal/watch/watcher.go). The HTTP server (internal/api/server.go) calls the engine.
--
-- Which file models what.
--   Base: Go's byte strings, maps, uint64 and int64, and errors; tests and lemmas on lists.
--   Types: internal/types/types.go, the types that the Raft node and the engine share.
--   Raft.Node: Node, NewNode, notifyReady, getLastLogInfo, sendHeartbeats, sendLogEntries.
--   Raft.Election: tick, becomeCandidate, startElection, becomeLeader, handleRequestVote and its
--     response.
--   Raft.Replication: handleAppendEntries and its response, handleInstallSnapshot, applyEntry,
--     checkCommitIndex, Propose.
--   Raft.StateMachine, Snapshots: SimpleStateMachine. Raft.Replicas, Copies: proofs.
--   Raft.Runtime: the goroutines ticker, run, applyLoop, and ProcessMessage, Start and Stop, with the
--     channels between them. Raft.Accounts, Balances, Arrivals, Turns, Interleaving, Silence: proofs.
--   Raft.Frame, Steps, Votes, Ballots, Leadership, Logs, Applied, Commits, Sync, RoundTrip: proofs.
--     Raft.Steps has the handlers as a relation.
--   Lease.Manager: all methods of the lease manager. Lease.Links, Expiry, Terms, History: proofs.
--   Watch.Watcher: the watch manager and its event loop. Watch.Routing, Routes, Sends, Delivery, History:
--     proofs.
--   Wal.Frames: the records of a segment file of internal/wal/wal.go, and the reader of one file.
--   Wal.Segments, Log: the directory of segments, and the methods of the log. Wal.Reading,
--     Tearing, Ending, Files, Soundness, Recovery, History: proofs. Wal.Sample: a codec for the examples.
--   Storage.Data, Engine, Queries: the engine. Storage.Persistence: the engine over the log of
--     segment files. Storage.Snapshots: createSnapshot, crc32Checksum and Close. Storage.Logging,
--     Durability, Safekeeping, Reads, Swaps, Ranges, Answers, Leases, Batches, BatchRecovery: proofs.
--   Api.Requests, Server, Transactions, Handlers: the handlers of internal/api/server.go and their
--     mux, on decoded requests. Api.Answers, Rejections, Sessions, Openness, Sequences: proofs.
--   Config.Settings, Loader: internal/config/config.go. Config.Filling, Saving: proofs.
--   The Tests and Examples modules apply the theorems at concrete inputs.
--
-- How the code is read. A method that holds its mutex runs whole: a state goes in, a state and the
-- results come out. What a Raft handler does outside its state (messages sent in goroutines, entries
-- put on applyCh, timers reset, the call of Restore) is a list of effects in order; a send that
-- blocks on a full applyCh is one that waits: in Raft.Runtime that channel has no bound. The goroutines
-- of a node take turns, each a round of its loop, in any order. Strings and []byte are lists of bytes,
-- nil the empty one. A map is an association list, a range over it visits the entries in the list's
-- order, and the theorems hold for any order. A time is an integer of nanoseconds, unbounded, the zero time is 0; a
-- duration is an int64 and its products wrap. A call that reads the clock takes the readings as
-- arguments. Terms and indexes are uint64 with wrap-around written out; votesReceived is unbounded.
-- handleInstallSnapshot reslices the log up to its capacity: what stands there is a parameter.
-- The log of the engine is a parameter, the record WalWrapper of Storage.Engine, which
-- Storage.Persistence instantiates with the log of segment files; LogsWell of Storage.Logging is what
-- one Append of it comes to.
-- encoding/json and hash/crc32 are the parameter Codec of Wal.Frames, with what is relied on in IsCodec
-- of Wal.Reading. The files of a log are ordered by the two numbers of their names, which is the order
-- of the names below 10^16; a disk may fail in an Append (Disk of Wal.Log), elsewhere it works.
-- A handler of the HTTP server makes its calls of the engine with no other handler's between them; the
-- keys that Get's goroutines will delete are kept in a list. JSON and the texts of durations are the
-- parameters Texts of Config.Loader and Json of Raft.Snapshots.
--
-- Fuel. notifyReady's loop takes commitIndex - lastApplied rounds, the scan of checkCommitIndex one
-- for each index after commitIndex, the sort of Range one for each key: as many as the loops make. The
-- reader of a segment file takes a round for each byte, and each record has four bytes at least.
--
-- Not modelled: when the timers of the Raft node fire, and sends on channels that Stop has closed;
-- what Restore makes of the state machine within a run of the node; the goroutines that forward watch
-- events; the panics of Cancel and of a watch's clean-up after Stop (a send on a watch channel that
-- Stop has closed is `none` of distribute_event);
-- the JSON and the event streams of the HTTP server and its client; internal/raft/cluster.go and
-- transport.go, logging, metrics, benchmarks and examples.
pub mod Base
pub mod Types
pub mod Raft
pub mod Lease
pub mod Watch
pub mod Wal
pub mod Storage
pub mod Api
pub mod Config
