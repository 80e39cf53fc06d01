-- ===== src/Raft/Steps.antt =====
-- The steps of a node of internal/raft/raft.go: each handler runs whole under n.mu, in any order.
use my_etcd.Base.{ℕ, ◌+◌, ◌<◌, ◌≡◌, Bool, Option, some, List}
use my_etcd.Base.Words.{u64_mod}
use my_etcd.Types.{Command, LogEntry, RaftMessage}
use my_etcd.Raft.Node.{Node}
use my_etcd.Raft.Election.{tick, handle_request_vote, handle_request_vote_response}
use my_etcd.Raft.Replication.{
  handle_append_entries, handle_install_snapshot, apply_entry, handle_append_entries_response,
  propose,
}

-- One handler call, with any message. A timer step is taken while the term has room in its uint64.
pub data Step (n m : Node) : Type 0 where
  ticked : n.current_term + 1 < u64_mod → m ≡ tick n → Step n m
  appended : (msg : RaftMessage) → m ≡ handle_append_entries msg n → Step n m
  append_answered : (msg : RaftMessage) → m ≡ handle_append_entries_response msg n → Step n m
  asked : (msg : RaftMessage) → m ≡ handle_request_vote msg n → Step n m
  answered : (msg : RaftMessage) → m ≡ handle_request_vote_response msg n → Step n m
  installed :
      (spare : List LogEntry → ℕ → Option (List LogEntry)) (restored : Bool) (msg : RaftMessage)
      → handle_install_snapshot spare restored msg n ≡ some m
      → Step n m
  took_entry : (entry : LogEntry) → m ≡ apply_entry entry n → Step n m
  proposed : (command : Command) → propose command n ≡ some m → Step n m

pub data Reach (n : Node) : Node → Type 0 where
  here : Reach n n
  next : {m k : Node} → Reach n m → Step m k → Reach n k
