-- ===== src/Raft/RoundTrip.antt =====
-- A whole round of replication in internal/raft/raft.go: message, answer, and the leader's record.
use my_etcd.Base.{
  ℕ, ◌+◌, ◌≡◌, ◌≢◌, refl, sym, ap, ◌∙◌, true, some, List, [], Bytes, length, bytes_eq, nat_eq,
  arith, bytes_beq_iff, length-drop,
}
use my_etcd.Base.Words.{u64}
use my_etcd.Base.GoMap.{GoMap, insert, lookup-insert}
use my_etcd.Types.{LogEntry, RaftMessage, leader}
use my_etcd.Raft.Node.{Node, index_of, append_message, notify_ready, send_heartbeats}
use my_etcd.Raft.Replication.{
  handle_append_entries, check_commit_index, record_match, handle_append_entries_response,
}
use my_etcd.Raft.Frame.{notify_ready-OnlyApplied, send_heartbeats-OnlyEffects}
use my_etcd.Raft.Sync.{
  InStep, last_sent, success_answer, answers, prev_lem, message-Accepts, message_entries,
  replicates,
}

next-notify_ready : (n : Node) → (notify_ready n).next_index ≡ n.next_index
next-notify_ready n = ap (λ (k : Node). k.next_index) (notify_ready-OnlyApplied n)

match-notify_ready : (n : Node) → (notify_ready n).match_index ≡ n.match_index
match-notify_ready n = ap (λ (k : Node). k.match_index) (notify_ready-OnlyApplied n)

next-send_heartbeats : (n : Node) → (send_heartbeats n).next_index ≡ n.next_index
next-send_heartbeats n = ap (λ (k : Node). k.next_index) (send_heartbeats-OnlyEffects n)

match-send_heartbeats : (n : Node) → (send_heartbeats n).match_index ≡ n.match_index
match-send_heartbeats n = ap (λ (k : Node). k.match_index) (send_heartbeats-OnlyEffects n)

ruleset map_frames =
    (arith, next-notify_ready, match-notify_ready, next-send_heartbeats, match-send_heartbeats)

maps-check_commit_index :
    (n : Node)
    → ((check_commit_index n).next_index ≡ n.next_index)
      × ((check_commit_index n).match_index ≡ n.match_index)
unfolding check_commit_index
maps-check_commit_index n = grind map_frames

records_match :
    (msg : RaftMessage) (n : Node)
    → n.state ≡ leader
    → msg.from_id ≢ []
    → msg.term ≡ n.current_term
    → msg.success ≡ true
    → ((handle_append_entries_response msg n).next_index
        ≡ insert msg.from_id (u64 (msg.match_index + 1)) n.next_index)
      × ((handle_append_entries_response msg n).match_index
          ≡ insert msg.from_id msg.match_index n.match_index)
unfolding handle_append_entries_response record_match
records_match msg n l named t s =
    grind (map_frames, maps-check_commit_index, bytes_beq_iff msg.from_id [])

index_of-insert_at :
    (q p : Bytes) (i : ℕ) (m : GoMap Bytes ℕ) → q ≡ p → index_of (insert q i m) p ≡ i
unfolding index_of
index_of-insert_at q p i m e = ground (arith, lookup-insert q p i m, bytes_beq_iff q p)

-- What a round with the follower `peer` leaves behind: equal logs, and the leader's two indexes of
-- the follower at the end of its log.
pub record Replicated (l f' l' : Node) (peer : Bytes) : Type 0 where
  pub same_log : f'.log ≡ l.log
  pub next_end : index_of l'.next_index peer ≡ length l.log
  pub match_end : index_of l'.match_index peer + 1 ≡ length l.log

-- A round of replication: the leader's message for a follower that is in step with it (the
-- follower's log is the leader's up to the follower's nextIndex, which is positive and within the
-- log, its term is not ahead, and the log is shorter than 2^64) makes the follower's log equal to the
-- leader's; the follower answers; and with that answer the leader has the follower's nextIndex at the
-- end of its log and its matchIndex at the last entry. Both nodes have names.
pub replication_round :
    (l f : Node) (peer : Bytes)
    → InStep l f peer
    → l.state ≡ leader
    → l.config.node_id ≢ []
    → f.config.node_id ≡ peer
    → peer ≢ []
    → (answer : RaftMessage) × (last_sent (handle_append_entries (append_message l peer) f).effects
        ≡ some answer)
      × Replicated l
          (handle_append_entries (append_message l peer) f)
          (handle_append_entries_response answer l)
          peer
unfolding append_message
replication_round l f peer h lead named_l id_f named_f =
    let msg = append_message l peer in
    let answer = success_answer f msg in
    let end : u64 (msg.prev_log_index + length msg.entries) + 1 ≡ length l.log = omega (
      arith,
      prev_lem l f peer h,
      h.next_le,
      h.room,
      ap (λ (xs : List LogEntry). length xs) (message_entries l peer),
      length-drop (index_of l.next_index peer) l.log,
    ) in
    let r = records_match answer l lead (λ z. named_f (sym id_f ∙ z)) refl refl in
    (
      answer,
      answers msg f (message-Accepts l f peer h) named_l,
      record {
        same_log = replicates l f peer h;
        next_end =
            ap (λ (m : GoMap Bytes ℕ). index_of m peer) r.0
            ∙ index_of-insert_at f.config.node_id peer _ l.next_index id_f
            ∙ omega (arith, end, h.room);
        match_end =
            ap (λ (m : GoMap Bytes ℕ). index_of m peer + 1) r.1
            ∙ ap (λ i. i + 1) (index_of-insert_at f.config.node_id peer _ l.match_index id_f)
            ∙ end;
      },
    )
