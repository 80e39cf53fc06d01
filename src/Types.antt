-- ===== src/Types.antt =====
-- internal/types/types.go: commands, log entries, Raft messages and the cluster's configuration.
use my_etcd.Base.{ℕ, Bool, List, Bytes, codes}
use my_etcd.Base.Words.{ℤ}

-- `int` values that the source names; `command_other` is any other value of the Go type.
pub data CommandType : Type 0 where
  command_put command_delete command_get : CommandType
  command_other : ℤ → CommandType

unfoldable pub command_name : CommandType → Bytes
command_name command_put = codes "PUT"
command_name command_delete = codes "DELETE"
command_name command_get = codes "GET"
command_name (command_other n) = codes "UNKNOWN"

pub record Command : Type 0 where
  pub kind : CommandType
  pub key : Bytes
  pub value : Bytes
  pub term : ℕ
  pub index : ℕ
  pub time : ℤ

pub data NodeState : Type 0 where
  follower candidate leader : NodeState

pub record LogEntry : Type 0 where
  pub term : ℕ  -- uint64
  pub index : ℕ  -- uint64
  pub command : Command

pub data RaftMessageType : Type 0 where
  msg_append_entries msg_append_entries_response : RaftMessageType
  msg_request_vote msg_request_vote_response : RaftMessageType
  msg_install_snapshot msg_install_snapshot_response : RaftMessageType
  msg_other : ℤ → RaftMessageType

-- The numbers are uint64.
pub record RaftMessage : Type 0 where
  pub kind : RaftMessageType
  pub term : ℕ
  pub from_id : Bytes
  pub to_id : Bytes
  pub prev_log_index : ℕ
  pub prev_log_term : ℕ
  pub entries : List LogEntry
  pub leader_commit : ℕ
  pub success : Bool
  pub match_index : ℕ
  pub last_log_index : ℕ
  pub last_log_term : ℕ
  pub vote_granted : Bool
  pub snapshot_term : ℕ
  pub snapshot_index : ℕ
  pub snapshot_data : Bytes
  pub install_success : Bool

-- The fields of Config that the Raft node reads; the timer lengths are not modelled.
pub record RaftConfig : Type 0 where
  pub node_id : Bytes
  pub cluster_nodes : List Bytes
