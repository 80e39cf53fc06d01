-- ===== src/Raft/Election.antt =====
-- Elections in internal/raft/raft.go: the timer, the vote request and its response.
use my_etcd.Base.{
  ℕ, ◌+◌, ◌/◌, Bool, false, not, ◌&&◌, ◌||◌, [], Bytes, length, ltb, leb, ◌==◌, if◌then◌else◌,
  bytes_eq, nat_eq,
}
use my_etcd.Base.Words.{u64}
use my_etcd.Base.GoMap.{insert}
use my_etcd.Types.{
  follower, candidate, leader, RaftMessage, msg_request_vote, msg_request_vote_response,
}
use my_etcd.Raft.Node.{
  Node, send, reset_election, reset_heartbeat, message, emit, state_beq, last_log_info, each_peer,
  send_heartbeats, adopt_term, respond,
}

unfoldable pub request_vote : Node → Bytes → RaftMessage
request_vote n peer = record (message msg_request_vote n.current_term n.config.node_id peer) {
  last_log_index = (last_log_info n.log).0;
  last_log_term = (last_log_info n.log).1;
}

-- startElection: one vote, its own, and a request to every other node. The term stays.
unfoldable pub start_election : Node → Node
start_election n =
    each_peer n.config.node_id (λ peer m. emit (send peer (request_vote n peer)) m)
      n.config.cluster_nodes (record n { votes_received = 1 })

-- becomeCandidate
unfoldable pub become_candidate : Node → Node
become_candidate n = start_election (
    emit reset_election (record n {
      state = candidate;
      current_term = u64 (n.current_term + 1);
      voted_for = n.config.node_id;
    }))

unfoldable pub init_peer : ℕ → Bytes → Node → Node
init_peer len peer n = record n {
  next_index = insert peer len n.next_index;
  match_index = insert peer 0 n.match_index;
}

-- becomeLeader
unfoldable pub become_leader : Node → Node
become_leader n = send_heartbeats (
    emit reset_heartbeat (
      each_peer n.config.node_id (init_peer (length n.log)) n.config.cluster_nodes
        (record n { state = leader })))

-- tick
unfoldable pub tick : Node → Node
tick n = elim n.state [
  | follower ↦ become_candidate n
  | candidate ↦ start_election n
  | leader ↦ send_heartbeats n
]

-- The candidate's log is at least as new: the later last term, or the same and no shorter.
unfoldable pub up_to_date : RaftMessage → Node → Bool
up_to_date msg n =
    ltb (last_log_info n.log).1 msg.last_log_term
    || (msg.last_log_term == (last_log_info n.log).1
        && leb (last_log_info n.log).0 msg.last_log_index)

-- The test of handleRequestVote, after the term is adopted.
unfoldable pub grants : RaftMessage → Node → Bool
grants msg n = (n.voted_for == [] || n.voted_for == msg.from_id) && up_to_date msg n

-- sendRequestVoteResponse
unfoldable pub vote_response : Bytes → Bool → Node → Node
vote_response to granted n =
    respond to
      (record (message msg_request_vote_response n.current_term n.config.node_id to) {
        vote_granted = granted;
      })
      n

-- handleRequestVote
unfoldable pub handle_request_vote : RaftMessage → Node → Node
handle_request_vote msg n =
    if ltb msg.term n.current_term
    then vote_response msg.from_id false n
    else (let m = adopt_term msg.term n in
        let granted = grants msg m in
        vote_response msg.from_id granted
          (emit reset_election (if granted then record m { voted_for = msg.from_id } else m)))

unfoldable pub needed_votes : Node → ℕ
needed_votes n = length n.config.cluster_nodes / 2 + 1

-- The vote that counts: becomeLeader once the count reaches a majority of the cluster.
unfoldable pub count_vote : Node → Node
count_vote n =
    let m = record n { votes_received = n.votes_received + 1 } in
    if leb (needed_votes m) m.votes_received then become_leader m else m

-- handleRequestVoteResponse
unfoldable pub handle_request_vote_response : RaftMessage → Node → Node
handle_request_vote_response msg n =
    if msg.from_id == []
    then n
    else if not (state_beq n.state candidate) || ltb msg.term n.current_term
    then n
    else if ltb n.current_term msg.term
    then record n { current_term = msg.term; state = follower }
    else if msg.vote_granted
    then count_vote n
    else n
