-- ===== src/Raft/ReplicationTests.antt =====
-- The theorems on replication of internal/raft/raft.go at work on a cluster of three nodes.
use my_etcd.Base.{◌≡◌, refl, ◌≢◌, some, [], ◌∷◌, inl, arith, bytes_eq, bytes_beq}
use my_etcd.Base.GoMap.{lookup}
use my_etcd.Types.{RaftMessage}
use my_etcd.Raft.Node.{Node, new_node, index_of, append_message, notify_ready}
use my_etcd.Raft.Replication.{
  handle_append_entries, handle_append_entries_response, check_commit_index,
}
use my_etcd.Raft.Logs.{Accepts, append_held_again, append_conflict}
use my_etcd.Raft.Sync.{InStep, last_sent}
use my_etcd.Raft.RoundTrip.{Replicated, replication_round}
use my_etcd.Raft.Commits.{Committed, check_commit_index-Committed}
use my_etcd.Raft.Applied.{applied, notify_ready_applies}
use my_etcd.Raft.Examples.{n1, n2, entry, leading, following, entries_message}

in_step : InStep leading following n2
unfolding index_of new_node bytes_beq lookup
in_step = record {
  next_pos = omega arith;
  next_le = omega arith;
  prefix = refl;
  term_le = omega arith;
  room = omega arith;
}

first_named : n1 ≢ []
first_named p = cc

second_named : n2 ≢ []
second_named p = cc

replication_round_example :
    (answer : RaftMessage) × (last_sent
        (handle_append_entries (append_message leading n2) following).effects
      ≡ some answer)
    × Replicated leading
        (handle_append_entries (append_message leading n2) following)
        (handle_append_entries_response answer leading)
        n2
unfolding new_node
replication_round_example =
    replication_round leading following n2 in_step refl first_named refl second_named

check_commit_index-Committed_example : Committed leading (check_commit_index leading).commit_index
unfolding new_node
check_commit_index-Committed_example = check_commit_index-Committed leading (omega arith)

-- The leader's log with all of it committed and nothing applied.
abbrev committed : Node
committed = record leading { commit_index = 2 }

notify_ready_applies_example :
    ((notify_ready committed).last_applied ≡ 2)
    × (applied (notify_ready committed).effects ≡ entry 1 1 ∷ entry 2 2 ∷ [])
unfolding new_node
notify_ready_applies_example = notify_ready_applies committed (omega arith) (omega arith)

accepted : Accepts entries_message following
unfolding new_node
accepted = record { term_le = omega arith; prev_match = inl refl }

-- What the follower has already.
abbrev again_message : RaftMessage
again_message = record entries_message { entries = entry 1 1 ∷ [] }

append_held_again_example :
    (handle_append_entries again_message following).log ≡ entry 0 0 ∷ entry 1 1 ∷ entry 1 1 ∷ []
unfolding new_node
append_held_again_example =
    append_held_again again_message following
      (record { term_le = omega arith; prev_match = inl refl }) ((entry 1 1, refl, refl), tt)
      (omega arith)

-- A follower whose second entry is from another term.
abbrev astray : Node
astray = record following { log = entry 0 0 ∷ entry 1 1 ∷ entry 1 2 ∷ entry 1 3 ∷ [] }

apart : (entry 1 2).term ≢ (entry 2 2).term
apart p = absurd (omega (arith, p))

append_conflict_example :
    (handle_append_entries entries_message astray).log
    ≡ entry 0 0 ∷ entry 1 1 ∷ entry 1 1 ∷ entry 2 2 ∷ []
unfolding new_node
append_conflict_example =
    append_conflict entries_message astray (entry 1 1 ∷ []) (entry 2 2) (entry 1 2) []
      (record { term_le = omega arith; prev_match = inl refl }) refl ((entry 1 1, refl, refl), tt)
      refl apart (omega arith)
