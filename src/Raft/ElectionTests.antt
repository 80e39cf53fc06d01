-- ===== src/Raft/ElectionTests.antt =====
-- The theorems on elections of internal/raft/raft.go at work on a cluster of three nodes.
use my_etcd.Base.{
  ◌≡◌, refl, ◌≢◌, ◌≤◌, ◌<◌, ◌⊎◌, ◌↔◌, [], ◌∷◌, Bytes, arith, bytes_eq, last_of, ap, bytes_beq,
}
use my_etcd.Types.{leader}
use my_etcd.Raft.Node.{
  Node, new_node, last_log_info, adopt_term, respond, each_peer, send_heartbeats, send_append,
  notify_ready,
}
use my_etcd.Raft.Election.{
  handle_request_vote, handle_request_vote_response, grants, up_to_date, vote_response,
  needed_votes, count_vote, become_leader, init_peer,
}
use my_etcd.Raft.Replication.{
  handle_append_entries, append_response, follow_commit, prev_mismatch, store_entries, cut_conflict,
  min_u64,
}
use my_etcd.Raft.Steps.{Reach, here, next, appended, answered}
use my_etcd.Raft.Votes.{VoteStands, Reach-VoteStands}
use my_etcd.Raft.Ballots.{Granted, AsNew, Granted-iff, one_vote_per_term}
use my_etcd.Raft.Leadership.{
  Elected, Step-Elected, deliver, repeated_vote_elects, ticks, sent, alone_never_leads,
}
use my_etcd.Raft.Examples.{n1, n2, n3, member, standing, request, heartbeat, granted_vote}

named : n2 ≢ []
named p = cc

third_named : n3 ≢ []
third_named p = cc

Granted-once : Granted request (member n1)
unfolding handle_request_vote grants up_to_date vote_response last_log_info adopt_term respond
    new_node bytes_beq
Granted-once = refl

-- Granted, then a heartbeat, then the same request again.
later :
    Reach
      (handle_request_vote request (member n1))
      (handle_append_entries heartbeat (handle_request_vote request (member n1)))
later = next here (appended heartbeat refl)

Granted-twice :
    Granted request (handle_append_entries heartbeat (handle_request_vote request (member n1)))
unfolding handle_request_vote handle_append_entries grants up_to_date vote_response last_log_info
    adopt_term respond new_node bytes_beq append_response follow_commit prev_mismatch store_entries
    cut_conflict min_u64 notify_ready
Granted-twice = refl

one_vote_per_term_example : request.from_id ≡ request.from_id
one_vote_per_term_example =
    one_vote_per_term request request (member n1)
      (handle_append_entries heartbeat (handle_request_vote request (member n1))) named named
      Granted-once later Granted-twice refl

Granted-iff_example : Granted request (member n1) ↔ (
    ((member n1).current_term ≤ request.term)
    × AsNew request (member n1)
    × (((member n1).current_term < request.term)
        ⊎ (((member n1).voted_for ≡ []) ⊎ ((member n1).voted_for ≡ request.from_id))))
Granted-iff_example = Granted-iff request (member n1) named

Reach-VoteStands_example :
    VoteStands
      (handle_request_vote request (member n1))
      (handle_append_entries heartbeat (handle_request_vote request (member n1)))
Reach-VoteStands_example = Reach-VoteStands later

wins : (handle_request_vote_response granted_vote standing).state ≡ leader
unfolding handle_request_vote_response bytes_beq count_vote needed_votes new_node become_leader
    send_heartbeats each_peer init_peer send_append
wins = refl

Step-Elected_example : Elected standing (handle_request_vote_response granted_vote standing)
Step-Elected_example = Step-Elected (answered granted_vote refl) (λ p. cc) wins

repeated_vote_elects_example : (deliver 2 granted_vote standing).state ≡ leader
unfolding new_node
repeated_vote_elects_example =
    repeated_vote_elects 2 granted_vote standing refl third_named refl refl
      (unfold needed_votes in omega arith) (unfold needed_votes in omega arith)

second_member : n2 ≢ n1
second_member p = absurd (omega (arith, ap (λ (b : Bytes). last_of 0 b) p))

abbrev alone : Node
alone = new_node (record { node_id = n1; cluster_nodes = n1 ∷ [] })

alone_never_leads_example : ((ticks 5 alone).state ≢ leader) × (sent (ticks 5 alone).effects ≡ 0)
unfolding new_node
alone_never_leads_example = alone_never_leads 5 alone refl (λ p. cc)
