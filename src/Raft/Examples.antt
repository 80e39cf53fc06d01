-- ===== src/Raft/Examples.antt =====
-- Nodes and messages of small clusters, on which the theorems on internal/raft/raft.go are applied.
use my_etcd.Base.{ℕ, true, [], ◌∷◌, Bytes, codes, bytes_eq}
use my_etcd.Types.{
  LogEntry, RaftMessage, msg_request_vote, msg_append_entries, msg_request_vote_response, candidate,
  leader,
}
use my_etcd.Raft.Node.{Node, new_node, empty_command, message}

abbrev pub n1 : Bytes
n1 = codes "n1"

abbrev pub n2 : Bytes
n2 = codes "n2"

abbrev pub n3 : Bytes
n3 = codes "n3"

abbrev pub entry : ℕ → ℕ → LogEntry
entry term index = record { term = term; index = index; command = empty_command }

abbrev pub member : Bytes → Node
member id = new_node (record { node_id = id; cluster_nodes = n1 ∷ n2 ∷ n3 ∷ [] })

-- n1 as the leader of term 2 with two entries, of which it knows n2 to have the first.
abbrev pub leading : Node
leading = record (member n1) {
  current_term = 2;
  state = leader;
  log = entry 0 0 ∷ entry 1 1 ∷ entry 2 2 ∷ [];
  next_index = (n2, 2) ∷ (n3, 1) ∷ [];
  match_index = (n2, 2) ∷ (n3, 0) ∷ [];
}

-- n2 with the first of them.
abbrev pub following : Node
following = record (member n2) { current_term = 1; log = entry 0 0 ∷ entry 1 1 ∷ [] }

-- n1 as the candidate of term 2, with its own vote.
abbrev pub standing : Node
standing = record (member n1) {
  current_term = 2;
  voted_for = n1;
  state = candidate;
  votes_received = 1;
}

-- A vote request of n2 in term 1, with the log of a new node.
abbrev pub request : RaftMessage
request = message msg_request_vote 1 n2 n1

abbrev pub heartbeat : RaftMessage
heartbeat = message msg_append_entries 1 n2 n1

-- A granted vote of n3 in term 2.
abbrev pub granted_vote : RaftMessage
granted_vote = record (message msg_request_vote_response 2 n3 n1) { vote_granted = true }

-- Two entries for a follower: the one that it has, and one more.
abbrev pub entries_message : RaftMessage
entries_message = record (message msg_append_entries 2 n1 n2) {
  entries = entry 1 1 ∷ entry 2 2 ∷ [];
}
