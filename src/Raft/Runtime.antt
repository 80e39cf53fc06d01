-- ===== src/Raft/Runtime.antt =====
-- The goroutines of a Raft node of internal/raft/raft.go and the channels between them: ticker, run,
-- applyLoop, ProcessMessage and Stop. A step of a goroutine is one round of its loop. applyCh is a
-- list without a bound: a send that finds it full waits until applyLoop has taken an entry, for which
-- applyLoop needs no lock. The panic of a send on a channel that Stop has closed is left out, and the
-- end of run and applyLoop after Stop is that they take no more turns.
use my_etcd.Base.{
  ℕ, ◌+◌, ◌<◌, ◌≡◌, Bool, true, false, ◌||◌, Option, none, some, List, [], ◌∷◌, ◌++◌, length, drop,
  ltb, if◌then◌else◌,
}
use my_etcd.Base.Words.{u64_mod}
use my_etcd.Types.{
  Command, RaftConfig, LogEntry, leader, RaftMessage, msg_append_entries,
  msg_append_entries_response, msg_request_vote, msg_request_vote_response, msg_install_snapshot,
  msg_install_snapshot_response, msg_other,
}
use my_etcd.Raft.Node.{Node, Effect, apply, state_beq, new_node}
use my_etcd.Raft.Election.{tick, handle_request_vote, handle_request_vote_response}
use my_etcd.Raft.Replication.{
  handle_append_entries, handle_install_snapshot, apply_entry, handle_append_entries_response,
  propose,
}
use my_etcd.Raft.StateMachine.{SimpleStateMachine}
use my_etcd.Raft.StateMachine

-- The channels hold what was sent and not received: tickCh one tick at most, the three channels of
-- messages 1000.
pub record Runtime : Type 0 where
  pub node : Node
  pub machine : SimpleStateMachine
  pub append_ch : List RaftMessage
  pub vote_ch : List RaftMessage
  pub install_ch : List RaftMessage
  pub apply_ch : List LogEntry
  pub tick_pending : Bool
  pub ticker_runs : Bool
  pub closed : Bool

-- NewNode and Start.
unfoldable pub start : RaftConfig → SimpleStateMachine → Runtime
start config machine = record {
  node = new_node config;
  machine = machine;
  append_ch = [];
  vote_ch = [];
  install_ch = [];
  apply_ch = [];
  tick_pending = false;
  ticker_runs = true;
  closed = false;
}

-- The entries that a handler sent on applyCh.
unfoldable pub sent_entries : List Effect → List LogEntry
sent_entries [] = []
sent_entries (apply entry ∷ effects) = entry ∷ sent_entries effects
sent_entries (_ ∷ effects) = sent_entries effects

-- The end of a handler that took the node to `n`.
unfoldable pub handled : Node → Runtime → Runtime
handled n r = record r {
  node = n;
  apply_ch = r.apply_ch ++ sent_entries (drop (length r.node.effects) n.effects);
}

-- A send that drops the message where the channel is full.
unfoldable pub offer : RaftMessage → List RaftMessage → List RaftMessage
offer msg ch = if ltb (length ch) 1000 then ch ++ (msg ∷ []) else ch

-- The switch of ProcessMessage.
unfoldable pub dispatch : RaftMessage → Runtime → Runtime
dispatch msg r = elim msg.kind [
  | msg_append_entries ↦ record r { append_ch = offer msg r.append_ch }
  | msg_append_entries_response ↦ handled (handle_append_entries_response msg r.node) r
  | msg_request_vote ↦ record r { vote_ch = offer msg r.vote_ch }
  | msg_request_vote_response ↦ handled (handle_request_vote_response msg r.node) r
  | msg_install_snapshot ↦ record r { install_ch = offer msg r.install_ch }
  | msg_install_snapshot_response ↦ r
  | msg_other n ↦ r
]

-- ProcessMessage. It reads tickCh to see whether it is closed: a tick that waits there is lost, and
-- the message with it.
unfoldable pub process_message : RaftMessage → Runtime → Runtime
process_message msg r =
    if r.tick_pending
    then record r { tick_pending = false }
    else if r.closed
    then r
    else dispatch msg r

-- The ticker's send, which does nothing where a tick waits already.
unfoldable pub send_tick : Runtime → Runtime
send_tick r = if r.ticker_runs then record r { tick_pending = true } else r

-- The ticker where the heartbeat timer fires.
unfoldable pub heartbeat_fires : Runtime → Runtime
heartbeat_fires r = if state_beq r.node.state leader then send_tick r else r

-- The ticker where it receives from tickCh: a tick, its own, or the end that Stop makes.
unfoldable pub ticker_reads : Runtime → Runtime
ticker_reads r =
    if r.ticker_runs
    then (if r.tick_pending || r.closed
        then record r { tick_pending = false; ticker_runs = false }
        else r)
    else r

-- The cases of run's select.
pub data Case : Type 0 where
  on_tick on_append on_vote on_apply : Case
  on_install :
      (spare : List LogEntry → ℕ → Option (List LogEntry)) (restored : Bool)
      (machine : SimpleStateMachine)
      → Case

-- One round of run; `none` where the channel is empty or the handler panics. What Restore makes of the
-- state machine is given.
unfoldable pub run_round : Case → Runtime → Option Runtime
run_round on_tick r =
    if r.tick_pending
    then some (handled (tick r.node) (record r { tick_pending = false }))
    else none
run_round on_append r = elim r.append_ch [
  | [] ↦ none
  | msg ∷ rest ↦ some (handled (handle_append_entries msg r.node) (record r { append_ch = rest }))
]
run_round on_vote r = elim r.vote_ch [
  | [] ↦ none
  | msg ∷ rest ↦ some (handled (handle_request_vote msg r.node) (record r { vote_ch = rest }))
]
run_round on_apply r = elim r.apply_ch [
  | [] ↦ none
  | entry ∷ rest ↦ some (handled (apply_entry entry r.node) (record r { apply_ch = rest }))
]
run_round (on_install spare restored machine) r = elim r.install_ch [
  | [] ↦ none
  | msg ∷ rest ↦ elim (handle_install_snapshot spare restored msg r.node) [
    | none ↦ none
    | some n ↦ some (handled n (record r { install_ch = rest; machine = machine }))
  ]
]

-- One round of applyLoop: the entry goes to the state machine, whose error is only logged.
unfoldable pub apply_round : Runtime → Runtime
apply_round r = elim r.apply_ch [
  | [] ↦ r
  | entry ∷ rest ↦ record r {
    machine = (StateMachine.apply_entry entry r.machine).0;
    apply_ch = rest;
  }
]

-- Propose, as the cluster calls it.
unfoldable pub propose_command : Command → Runtime → Option Runtime
propose_command command r = elim (propose command r.node) [
  | none ↦ none
  | some n ↦ some (handled n r)
]

-- Stop
unfoldable pub stop : Runtime → Runtime
stop r = record r { closed = true }

-- A step of one of the goroutines, or a call from outside. A round of run is taken while the term has
-- room in its uint64.
pub data Turn (r : Runtime) : Runtime → Type 0 where
  received : (msg : RaftMessage) → Turn r (process_message msg r)
  election_fired : Turn r (send_tick r)
  heartbeat_fired : Turn r (heartbeat_fires r)
  ticker_read : Turn r (ticker_reads r)
  ran :
      (c : Case) {r' : Runtime}
      → r.node.current_term + 1 < u64_mod
      → run_round c r ≡ some r'
      → Turn r r'
  applied : Turn r (apply_round r)
  proposed : (command : Command) {r' : Runtime} → propose_command command r ≡ some r' → Turn r r'
  stopped : Turn r (stop r)

-- Any interleaving of turns.
pub data Run (r : Runtime) : Runtime → Type 0 where
  begin : Run r r
  turn : {m k : Runtime} → Run r m → Turn m k → Run r k
