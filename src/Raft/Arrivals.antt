-- ===== src/Raft/Arrivals.antt =====
-- What ProcessMessage of internal/raft/raft.go puts on the channels and hands over.
use my_etcd.Base.{refl, ◌||◌, [], Bool, true, false, arith, if◌then◌else◌}
use my_etcd.Types.{
  RaftMessage, RaftMessageType, msg_append_entries, msg_append_entries_response, msg_request_vote,
  msg_request_vote_response, msg_install_snapshot, msg_install_snapshot_response, msg_other,
}
use my_etcd.Raft.Election.{handle_request_vote_response}
use my_etcd.Raft.Replication.{handle_append_entries_response}
use my_etcd.Raft.Steps.{append_answered, answered, here}
use my_etcd.Raft.Runtime.{Runtime, handled, offer, dispatch, process_message}
use my_etcd.Raft.Balances.{took-Accounts, unchanged, offer-fitting, idle-Accounts}
use my_etcd.Raft.Accounts.{
  is_vote, is_append, is_install, fitting, accepted, answer, is_answer, accepted_answer, Accounts,
}

dispatch-Accounts :
    (msg : RaftMessage) (r : Runtime)
    → Accounts r
        (dispatch msg r)
        (fitting (is_vote msg.kind) r.vote_ch msg)
        (fitting (is_append msg.kind) r.append_ch msg)
        (fitting (is_install msg.kind) r.install_ch msg)
        (answer (is_answer msg.kind) msg)
        0
unfolding dispatch handled
dispatch-Accounts msg r = on msg.kind
  where
    on :
        (kind : RaftMessageType)
        → Accounts r
            (elim kind [
              | msg_append_entries ↦ record r { append_ch = offer msg r.append_ch }
              | msg_append_entries_response ↦ handled (handle_append_entries_response msg r.node) r
              | msg_request_vote ↦ record r { vote_ch = offer msg r.vote_ch }
              | msg_request_vote_response ↦ handled (handle_request_vote_response msg r.node) r
              | msg_install_snapshot ↦ record r { install_ch = offer msg r.install_ch }
              | msg_install_snapshot_response ↦ r
              | msg_other n ↦ r
            ])
            (fitting (is_vote kind) r.vote_ch msg)
            (fitting (is_append kind) r.append_ch msg)
            (fitting (is_install kind) r.install_ch msg)
            (answer (is_answer kind) msg)
            0
    on msg_append_entries = record {
      steps = here;
      votes_lem = unchanged r.vote_ch;
      appends_lem = offer-fitting msg r.append_ch;
      installs_lem = unchanged r.install_ch;
      answers_lem = refl;
      ticks_lem = omega arith;
    }
    on msg_append_entries_response =
        took-Accounts r (handled (handle_append_entries_response msg r.node) r)
          (append_answered msg refl) (refl, refl, refl, refl) (refl, refl, refl, refl)
    on msg_request_vote = record {
      steps = here;
      votes_lem = offer-fitting msg r.vote_ch;
      appends_lem = unchanged r.append_ch;
      installs_lem = unchanged r.install_ch;
      answers_lem = refl;
      ticks_lem = omega arith;
    }
    on msg_request_vote_response =
        took-Accounts r (handled (handle_request_vote_response msg r.node) r) (answered msg refl)
          (refl, refl, refl, refl) (refl, refl, refl, refl)
    on msg_install_snapshot = record {
      steps = here;
      votes_lem = unchanged r.vote_ch;
      appends_lem = unchanged r.append_ch;
      installs_lem = offer-fitting msg r.install_ch;
      answers_lem = refl;
      ticks_lem = omega arith;
    }
    on msg_install_snapshot_response = idle-Accounts r 0
    on (msg_other n) = idle-Accounts r 0

pub process_message-Accounts :
    (msg : RaftMessage) (r : Runtime)
    → Accounts r
        (process_message msg r)
        (accepted (is_vote msg.kind) r.vote_ch msg r)
        (accepted (is_append msg.kind) r.append_ch msg r)
        (accepted (is_install msg.kind) r.install_ch msg r)
        (accepted_answer msg r)
        0
unfolding process_message
process_message-Accounts msg r = on r.tick_pending r.closed
  where
    on :
        (p c : Bool)
        → Accounts r
            (if p then record r { tick_pending = false } else if c then r else dispatch msg r)
            (if p || c then [] else fitting (is_vote msg.kind) r.vote_ch msg)
            (if p || c then [] else fitting (is_append msg.kind) r.append_ch msg)
            (if p || c then [] else fitting (is_install msg.kind) r.install_ch msg)
            (if p || c then [] else answer (is_answer msg.kind) msg)
            0
    on true c = record {
      steps = here;
      votes_lem = unchanged r.vote_ch;
      appends_lem = unchanged r.append_ch;
      installs_lem = unchanged r.install_ch;
      answers_lem = refl;
      ticks_lem = omega arith;
    }
    on false true = idle-Accounts r 0
    on false false = dispatch-Accounts msg r
