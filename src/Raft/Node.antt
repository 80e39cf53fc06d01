-- ===== src/Raft/Node.antt =====
-- The state of a Raft node (`Node` of internal/raft/raft.go), its outputs and its small helpers.
-- The nested structs persistentState and leaderState are flattened into the node; volatileState,
-- which the source writes once and never reads, is left out. A handler runs whole under n.mu.
use my_etcd.Base.{
  ℕ, zero, suc, ◌+◌, ◌-◌, Bool, true, false, ◌&&◌, none, some, List, [], ◌∷◌, ◌++◌, Bytes, length,
  get_elem?, drop, last_of, ltb, ◌==◌, if◌then◌else◌, bytes_eq, nat_eq,
}
use my_etcd.Base.Words.{u64, u64_pred, pos}
use my_etcd.Base.GoMap.{GoMap, lookup}
use my_etcd.Types.{
  Command, command_put, NodeState, follower, candidate, leader, LogEntry, RaftMessageType,
  RaftMessage, msg_append_entries, RaftConfig,
}

-- What a handler does beyond its own state, in order: transport.Send in a goroutine, an entry put
-- on applyCh, the two timer resets, the ready signal, and the call of stateMachine.Restore.
pub data Effect : Type 0 where
  send : Bytes → RaftMessage → Effect
  apply : LogEntry → Effect
  reset_election reset_heartbeat ready : Effect
  restore : Bytes → Effect

pub record Node : Type 0 where
  pub current_term : ℕ  -- uint64
  pub voted_for : Bytes
  pub next_index : GoMap Bytes ℕ
  pub match_index : GoMap Bytes ℕ
  pub state : NodeState
  pub log : List LogEntry
  pub config : RaftConfig
  pub commit_index : ℕ  -- uint64
  pub last_applied : ℕ  -- uint64
  pub votes_received : ℕ  -- int: it counts messages, and is left unbounded
  pub effects : List Effect

abbrev pub empty_command : Command
empty_command = record {
  kind = command_put;
  key = [];
  value = [];
  term = 0;
  index = 0;
  time = pos 0;
}

-- NewNode: the log starts with a placeholder at index 0.
unfoldable pub new_node : RaftConfig → Node
new_node config = record {
  current_term = 0;
  voted_for = [];
  next_index = [];
  match_index = [];
  state = follower;
  log = record { term = 0; index = 0; command = empty_command } ∷ [];
  config = config;
  commit_index = 0;
  last_applied = 0;
  votes_received = 0;
  effects = [];
}

-- A message with the fields that every message has; the others at Go's zero values.
abbrev pub message : RaftMessageType → ℕ → Bytes → Bytes → RaftMessage
message kind term from_id to_id = record {
  kind = kind;
  term = term;
  from_id = from_id;
  to_id = to_id;
  prev_log_index = 0;
  prev_log_term = 0;
  entries = [];
  leader_commit = 0;
  success = false;
  match_index = 0;
  last_log_index = 0;
  last_log_term = 0;
  vote_granted = false;
  snapshot_term = 0;
  snapshot_index = 0;
  snapshot_data = [];
  install_success = false;
}

abbrev pub emit : Effect → Node → Node
emit e n = record n { effects = n.effects ++ (e ∷ []) }

abbrev pub state_beq : NodeState → NodeState → Bool
state_beq follower follower = true
state_beq candidate candidate = true
state_beq leader leader = true
state_beq _ _ = false

-- m[k] of a map to uint64: a missing key reads 0.
unfoldable pub index_of : GoMap Bytes ℕ → Bytes → ℕ
index_of m k = elim (lookup k m) [ none ↦ 0 | some i ↦ i ]

unfoldable pub term_at : List LogEntry → ℕ → ℕ
term_at log i = elim (get_elem? log i) [ none ↦ 0 | some e ↦ e.term ]

-- getLastLogInfo: the index and the term of the last entry.
unfoldable pub last_log_info : List LogEntry → ℕ × ℕ
last_log_info [] = (0, 0)
last_log_info (e ∷ log) = ((last_of e log).index, (last_of e log).term)

-- The loops over n.config.ClusterNodes that skip the node itself.
unfoldable pub each_peer : Bytes → (Bytes → Node → Node) → List Bytes → Node → Node
each_peer self f [] n = n
each_peer self f (p ∷ ps) n = each_peer self f ps (if p == self then n else f p n)

-- The AppendEntries message for a follower, as sendHeartbeats, sendLogEntries and the retry in
-- handleAppendEntriesResponse build it.
unfoldable pub append_message : Node → Bytes → RaftMessage
append_message n peer =
    let next = index_of n.next_index peer in
    let prev = u64_pred next in
    record (message msg_append_entries n.current_term n.config.node_id peer) {
      prev_log_index = prev;
      prev_log_term = if ltb 0 prev && ltb prev (length n.log) then term_at n.log prev else 0;
      entries = if ltb next (length n.log) then drop next n.log else [];
      leader_commit = n.commit_index;
    }

unfoldable pub send_append : Bytes → Node → Node
send_append peer n = emit (send peer (append_message n peer)) n

-- sendHeartbeats
unfoldable pub send_heartbeats : Node → Node
send_heartbeats n =
    emit reset_heartbeat (each_peer n.config.node_id send_append n.config.cluster_nodes n)

-- sendLogEntries
unfoldable pub send_log_entries : Node → Node
send_log_entries n = each_peer n.config.node_id send_append n.config.cluster_nodes n

-- One round of notifyReady: the next entry goes to applyCh, unless it is missing or a placeholder.
unfoldable pub apply_next : Node → Node
apply_next n =
    let m = record n { last_applied = u64 (n.last_applied + 1) } in
    elim (get_elem? n.log (u64 (n.last_applied + 1))) [
      | none ↦ m
      | some entry ↦ if entry.index == 0 then m else emit (apply entry) m
    ]

-- The loop of notifyReady; the fuel is the number of indexes left.
unfoldable pub notify_loop : ℕ → Node → Node
notify_loop zero n = n
notify_loop (suc fuel) n =
    let rest = notify_loop fuel (apply_next n) in
    if ltb n.last_applied n.commit_index then rest else n

unfoldable pub notify_ready : Node → Node
notify_ready n = emit ready (notify_loop (n.commit_index - n.last_applied) n)

-- "If the term is larger, update it and become a follower."
unfoldable pub adopt_term : ℕ → Node → Node
adopt_term term n =
    if ltb n.current_term term
    then record n { current_term = term; voted_for = []; state = follower }
    else n

-- A response is sent only to a named node.
unfoldable pub respond : Bytes → RaftMessage → Node → Node
respond to msg n = if to == [] then n else emit (send to msg) n
