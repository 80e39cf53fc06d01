-- ===== src/Raft/Votes.antt =====
-- Terms and votes of a node of internal/raft/raft.go over any sequence of handler calls.
use my_etcd.Base.{
  ℕ, ◌+◌, ◌<◌, ◌≤◌, ◌≡◌, ◌≢◌, refl, sym, ap, ◌∙◌, Bool, Option, some, List, [], Bytes, bytes_eq,
  nat_eq, arith, bytes_beq_iff,
}
use my_etcd.Base.Words.{u64_mod}
use my_etcd.Types.{Command, LogEntry, RaftMessage}
use my_etcd.Raft.Node.{Node, send_heartbeats, send_append, notify_ready, adopt_term, respond}
use my_etcd.Raft.Election.{
  start_election, become_candidate, become_leader, tick, grants, vote_response, handle_request_vote,
  count_vote, handle_request_vote_response,
}
use my_etcd.Raft.Replication.{
  append_response, follow_commit, handle_append_entries, snapshot_response, handle_install_snapshot,
  apply_entry, check_commit_index, record_match, retry_append, handle_append_entries_response,
  propose,
}
use my_etcd.Raft.Frame.{
  send_log_entries-OnlyEffects, send_heartbeats-OnlyEffects, start_election-OnlyEffects,
  respond-OnlyEffects, notify_ready-OnlyApplied, become_leader_frame,
}
use my_etcd.Raft.Steps.{
  Step, ticked, appended, append_answered, asked, answered, installed, took_entry, proposed, Reach,
  here, next,
}

-- The term does not fall, and a vote stands as long as its term.
pub record VoteStands (n m : Node) : Type 0 where
  pub term_le : n.current_term ≤ m.current_term
  pub vote_kept : n.current_term ≡ m.current_term → n.voted_for ≢ [] → m.voted_for ≡ n.voted_for

-- Both fields are as they were.
pub record SameVote (n m : Node) : Type 0 where
  pub term_eq : m.current_term ≡ n.current_term
  pub vote_eq : m.voted_for ≡ n.voted_for

SameVote→VoteStands : {n m : Node} → SameVote n m → VoteStands n m
SameVote→VoteStands h = record { term_le = omega arith; vote_kept = λ e v. h.vote_eq }

pub respond-SameVote : (to : Bytes) (msg : RaftMessage) (n : Node) → SameVote n (respond to msg n)
respond-SameVote to msg n = record {
  term_eq = ap (λ (k : Node). k.current_term) (respond-OnlyEffects to msg n);
  vote_eq = ap (λ (k : Node). k.voted_for) (respond-OnlyEffects to msg n);
}

heartbeats-SameVote : (n : Node) → SameVote n (send_heartbeats n)
heartbeats-SameVote n = record {
  term_eq = ap (λ (k : Node). k.current_term) (send_heartbeats-OnlyEffects n);
  vote_eq = ap (λ (k : Node). k.voted_for) (send_heartbeats-OnlyEffects n);
}

notify-SameVote : (n : Node) → SameVote n (notify_ready n)
notify-SameVote n = record {
  term_eq = ap (λ (k : Node). k.current_term) (notify_ready-OnlyApplied n);
  vote_eq = ap (λ (k : Node). k.voted_for) (notify_ready-OnlyApplied n);
}

leader-SameVote : (n : Node) → SameVote n (become_leader n)
leader-SameVote n = record {
  term_eq = ap (λ (k : Node). k.current_term) (become_leader_frame n);
  vote_eq = ap (λ (k : Node). k.voted_for) (become_leader_frame n);
}

election-SameVote : (n : Node) → SameVote n (start_election n)
election-SameVote n = record {
  term_eq = ap (λ (k : Node). k.current_term) (start_election-OnlyEffects n);
  vote_eq = ap (λ (k : Node). k.voted_for) (start_election-OnlyEffects n);
}

ruleset vote_frames = (
  arith, respond-SameVote, heartbeats-SameVote, notify-SameVote, leader-SameVote, election-SameVote,
)

tick-VoteStands : (n : Node) → n.current_term + 1 < u64_mod → VoteStands n (tick n)
unfolding tick become_candidate
tick-VoteStands n h = grind vote_frames

request_vote-VoteStands : (msg : RaftMessage) (n : Node) → VoteStands n (handle_request_vote msg n)
unfolding handle_request_vote vote_response adopt_term grants
request_vote-VoteStands msg n = grind (vote_frames, bytes_beq_iff)

vote_answer-VoteStands :
    (msg : RaftMessage) (n : Node) → VoteStands n (handle_request_vote_response msg n)
unfolding handle_request_vote_response count_vote
vote_answer-VoteStands msg n = grind vote_frames

append-VoteStands : (msg : RaftMessage) (n : Node) → VoteStands n (handle_append_entries msg n)
unfolding handle_append_entries append_response adopt_term follow_commit
append-VoteStands msg n = grind vote_frames

append_answer-VoteStands :
    (msg : RaftMessage) (n : Node) → VoteStands n (handle_append_entries_response msg n)
unfolding handle_append_entries_response record_match retry_append send_append check_commit_index
append_answer-VoteStands msg n = grind vote_frames

install-VoteStands :
    (spare : List LogEntry → ℕ → Option (List LogEntry)) (restored : Bool) (msg : RaftMessage)
    (n m : Node)
    → handle_install_snapshot spare restored msg n ≡ some m
    → VoteStands n m
unfolding handle_install_snapshot adopt_term snapshot_response
install-VoteStands spare restored msg n m h = grind vote_frames

propose-VoteStands : (command : Command) (n m : Node) → propose command n ≡ some m → VoteStands n m
unfolding propose
propose-VoteStands command n m h = grind (vote_frames, send_log_entries-OnlyEffects)

apply_entry-VoteStands : (entry : LogEntry) (n : Node) → VoteStands n (apply_entry entry n)
unfolding apply_entry
apply_entry-VoteStands entry n = grind vote_frames

Step-VoteStands : {n m : Node} → Step n m → VoteStands n m
Step-VoteStands {n} (ticked room e) = rw e (tick-VoteStands n room)
Step-VoteStands {n} (appended msg e) = rw e (append-VoteStands msg n)
Step-VoteStands {n} (append_answered msg e) = rw e (append_answer-VoteStands msg n)
Step-VoteStands {n} (asked msg e) = rw e (request_vote-VoteStands msg n)
Step-VoteStands {n} (answered msg e) = rw e (vote_answer-VoteStands msg n)
Step-VoteStands {n} {m} (installed spare ok msg e) = install-VoteStands spare ok msg n m e
Step-VoteStands {n} (took_entry entry e) = rw e (apply_entry-VoteStands entry n)
Step-VoteStands {n} {m} (proposed command e) = propose-VoteStands command n m e

-- Over any sequence of handler calls, with any messages, snapshots and proposals, in which no timer
-- step overflows the term: currentTerm does not fall, and while the term is the same a vote that
-- was cast is not changed.
pub Reach-VoteStands : {n m : Node} → Reach n m → VoteStands n m
Reach-VoteStands here = record { term_le = omega arith; vote_kept = λ e v. refl }
Reach-VoteStands {n} (next {m = m} {k = k} r st) =
    let old = Reach-VoteStands r in
    let new = Step-VoteStands st in
    record {
      term_le = omega arith;
      vote_kept = λ e v.
          let same : n.current_term ≡ m.current_term = omega (arith, old.term_le, new.term_le, e) in
          let kept = old.vote_kept same v in
          new.vote_kept (omega (arith, same, e)) (λ w. v (sym kept ∙ w)) ∙ kept;
    }
