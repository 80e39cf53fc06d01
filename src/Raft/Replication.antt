-- ===== src/Raft/Replication.antt =====
-- Log replication in internal/raft/raft.go: AppendEntries, snapshots, commits and proposals.
use my_etcd.Base.{
  ℕ, zero, suc, ◌+◌, ◌-◌, ◌/◌, Bool, true, false, not, ◌&&◌, ◌||◌, Option, none, some, List, [],
  ◌∷◌, ◌++◌, Bytes, length, get_elem?, take, ltb, leb, ◌==◌, if◌then◌else◌, bytes_eq, nat_eq,
}
use my_etcd.Base.Words.{u64, u64_pred}
use my_etcd.Base.GoMap.{GoMap, insert}
use my_etcd.Types.{
  Command, follower, leader, LogEntry, RaftMessage, msg_append_entries_response,
  msg_install_snapshot_response,
}
use my_etcd.Raft.Node.{
  Node, apply, reset_election, restore, message, emit, state_beq, index_of, send_append,
  send_heartbeats, send_log_entries, notify_ready, adopt_term, respond,
}

-- sendAppendEntriesResponse
unfoldable pub append_response : Bytes → Bool → ℕ → Node → Node
append_response to success match n =
    respond to
      (record (message msg_append_entries_response n.current_term n.config.node_id to) {
        success = success;
        match_index = match;
      })
      n

-- "Check whether the previous entry matches": true where it does not.
unfoldable pub prev_mismatch : RaftMessage → List LogEntry → Bool
prev_mismatch msg log = ltb 0 msg.prev_log_index && (elim (get_elem? log msg.prev_log_index) [
  | none ↦ true
  | some e ↦ not (e.term == msg.prev_log_term)
])

unfoldable pub conflicts : List LogEntry → ℕ → LogEntry → Bool
conflicts log index entry = elim (get_elem? log index) [
  | none ↦ false
  | some old ↦ not (old.term == entry.term)
]

-- The first loop over the entries: cut the log at the first conflict. `i` counts the rounds.
unfoldable pub cut_conflict : ℕ → ℕ → List LogEntry → List LogEntry → List LogEntry
cut_conflict prev i [] log = log
cut_conflict prev i (entry ∷ rest) log =
    let index = u64 (prev + 1 + i) in
    if conflicts log index entry then take index log else cut_conflict prev (i + 1) rest log

-- "Add the new entries": after the cut, all of them are appended.
unfoldable pub store_entries : ℕ → List LogEntry → List LogEntry → List LogEntry
store_entries prev [] log = log
store_entries prev (entry ∷ rest) log = cut_conflict prev 0 (entry ∷ rest) log ++ (entry ∷ rest)

-- min
unfoldable pub min_u64 : ℕ → ℕ → ℕ
min_u64 a b = if ltb a b then a else b

-- "Update the commit index."
unfoldable pub follow_commit : ℕ → Node → Node
follow_commit leader_commit n =
    if ltb n.commit_index leader_commit
    then notify_ready (record n { commit_index = min_u64 leader_commit (u64_pred (length n.log)) })
    else n

-- handleAppendEntries
unfoldable pub handle_append_entries : RaftMessage → Node → Node
handle_append_entries msg n =
    if ltb msg.term n.current_term
    then append_response msg.from_id false n.commit_index n
    else (let m = emit reset_election (adopt_term msg.term n) in
        if prev_mismatch msg m.log
        then append_response msg.from_id false m.commit_index m
        else append_response msg.from_id true (u64 (msg.prev_log_index + length msg.entries)) (
            follow_commit msg.leader_commit
              (record m { log = store_entries msg.prev_log_index msg.entries m.log })))

-- sendInstallSnapshotResponse
unfoldable pub snapshot_response : Bytes → Bool → Node → Node
snapshot_response to success n =
    respond to
      (record (message msg_install_snapshot_response n.current_term n.config.node_id to) {
        install_success = success;
      })
      n

-- log[:k]. Within the length it is a prefix. Beyond it, Go exposes what the backing array holds up
-- to its capacity, and panics above: `spare` is the runtime's answer there, `none` a panic.
unfoldable pub reslice :
    (List LogEntry → ℕ → Option (List LogEntry)) → ℕ → List LogEntry → Option (List LogEntry)
reslice spare k log = if leb k (length log) then some (take k log) else spare log k

-- handleInstallSnapshot; `restored` says whether stateMachine.Restore returned no error.
unfoldable pub handle_install_snapshot :
    (List LogEntry → ℕ → Option (List LogEntry)) → Bool → RaftMessage → Node → Option Node
handle_install_snapshot spare restored msg n =
    if ltb msg.term n.current_term
    then some (snapshot_response msg.from_id false n)
    else (let m = emit (restore msg.snapshot_data) (emit reset_election (adopt_term msg.term n)) in
        if not restored
        then some (snapshot_response msg.from_id false m)
        else (elim (reslice spare (u64 (msg.snapshot_index + 1)) m.log) [
          | none ↦ none
          | some log ↦ some (
              snapshot_response msg.from_id true (record m {
                commit_index = msg.snapshot_index;
                last_applied = msg.snapshot_index;
                log = log;
              }))
        ]))

-- applyEntry, run on what the main loop takes from applyCh.
unfoldable pub apply_entry : LogEntry → Node → Node
apply_entry entry n =
    if leb entry.index n.last_applied
    then n
    else if entry.index == 0
    then record n { last_applied = entry.index }
    else record (emit (apply entry) n) { last_applied = entry.index }

-- The inner loop of checkCommitIndex.
unfoldable pub count_replicas : Bytes → GoMap Bytes ℕ → ℕ → List Bytes → ℕ → ℕ
count_replicas self matches i [] count = count
count_replicas self matches i (p ∷ ps) count =
    count_replicas self matches i ps
      (if p == self then count else if leb i (index_of matches p) then count + 1 else count)

unfoldable pub has_majority : Node → ℕ → Bool
has_majority n i =
    ltb (length n.config.cluster_nodes / 2)
      (count_replicas n.config.node_id n.match_index i n.config.cluster_nodes 1)

-- The outer loop of checkCommitIndex, over the `rounds` indexes from `i` on.
unfoldable pub scan_commit : Node → ℕ → ℕ → ℕ → ℕ
scan_commit n zero i best = best
scan_commit n (suc rounds) i best =
    scan_commit n rounds (i + 1) (if has_majority n i then i else best)

-- checkCommitIndex
unfoldable pub check_commit_index : Node → Node
check_commit_index n =
    let best =
      scan_commit n (length n.log - (n.commit_index + 1)) (n.commit_index + 1) n.commit_index in
    if ltb n.commit_index best then notify_ready (record n { commit_index = best }) else n

-- The failure branch of handleAppendEntriesResponse.
unfoldable pub retry_append : Bytes → Node → Node
retry_append peer n =
    let next = index_of n.next_index peer in
    send_append peer
      (if ltb 1 next then record n { next_index = insert peer (u64_pred next) n.next_index } else n)

-- The success branch.
unfoldable pub record_match : RaftMessage → Node → Node
record_match msg n =
    let m = check_commit_index (record n {
      match_index = insert msg.from_id msg.match_index n.match_index;
      next_index = insert msg.from_id (u64 (msg.match_index + 1)) n.next_index;
    }) in
    if ltb 0 m.commit_index then send_heartbeats m else m

-- handleAppendEntriesResponse
unfoldable pub handle_append_entries_response : RaftMessage → Node → Node
handle_append_entries_response msg n =
    if msg.from_id == []
    then n
    else if not (state_beq n.state leader) || ltb msg.term n.current_term
    then n
    else if ltb n.current_term msg.term
    then record n { current_term = msg.term; state = follower }
    else if msg.success
    then record_match msg n
    else retry_append msg.from_id n

-- Propose: `none` is the error "not leader".
unfoldable pub propose : Command → Node → Option Node
propose command n =
    if state_beq n.state leader
    then some (
        send_log_entries (record n {
          log =
              n.log
              ++ (record { term = n.current_term; index = length n.log; command = command } ∷ []);
        }))
    else none
