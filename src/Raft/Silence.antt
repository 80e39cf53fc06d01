-- ===== src/Raft/Silence.antt =====
-- A node of internal/raft/raft.go whose ticker has ended.
use my_etcd.Base.{
  ℕ, ◌≡◌, ◌≢◌, refl, subst, Bool, true, false, Option, none, some, List, [], ◌∷◌, split_if,
  split_option, arith, bytes_eq, nat_eq,
}
use my_etcd.Types.{
  Command, LogEntry, candidate, leader, RaftMessage, RaftMessageType, msg_append_entries,
  msg_append_entries_response, msg_request_vote, msg_request_vote_response, msg_install_snapshot,
  msg_install_snapshot_response, msg_other,
}
use my_etcd.Raft.Node.{Node, send_append, adopt_term, state_beq}
use my_etcd.Raft.Election.{
  handle_request_vote, vote_response, count_vote, handle_request_vote_response,
}
use my_etcd.Raft.Replication.{
  append_response, follow_commit, handle_append_entries, snapshot_response, handle_install_snapshot,
  apply_entry, check_commit_index, record_match, retry_append, handle_append_entries_response,
  propose,
}
use my_etcd.Raft.StateMachine.{SimpleStateMachine}
use my_etcd.Raft.StateMachine
use my_etcd.Raft.Runtime.{
  Runtime, handled, offer, dispatch, process_message, send_tick, heartbeat_fires, ticker_reads,
  Case, on_tick, on_append, on_vote, on_apply, on_install, run_round, apply_round, propose_command,
  stop, Turn, received, election_fired, heartbeat_fired, ticker_read, ran, applied, stopped, Run,
  begin, turn,
}
use my_etcd.Raft.Runtime
use my_etcd.Raft.Leadership.{role_frames, become_leader_role}

-- The handler makes no candidate.
abbrev NoCampaign : Node → Node → Type 0
NoCampaign n m = m.state ≡ candidate → n.state ≡ candidate

append_campaign : (msg : RaftMessage) (n : Node) → NoCampaign n (handle_append_entries msg n)
unfolding handle_append_entries append_response adopt_term follow_commit
append_campaign msg n h = grind role_frames

append_answer_campaign :
    (msg : RaftMessage) (n : Node) → NoCampaign n (handle_append_entries_response msg n)
unfolding handle_append_entries_response record_match retry_append send_append check_commit_index
append_answer_campaign msg n h = grind role_frames

request_campaign : (msg : RaftMessage) (n : Node) → NoCampaign n (handle_request_vote msg n)
unfolding handle_request_vote vote_response adopt_term
request_campaign msg n h = grind role_frames

install_campaign :
    (spare : List LogEntry → ℕ → Option (List LogEntry)) (restored : Bool) (msg : RaftMessage)
    (n m : Node)
    → handle_install_snapshot spare restored msg n ≡ some m
    → NoCampaign n m
unfolding handle_install_snapshot adopt_term snapshot_response
install_campaign spare restored msg n m e h = grind role_frames

apply_campaign : (entry : LogEntry) (n : Node) → NoCampaign n (apply_entry entry n)
unfolding apply_entry
apply_campaign entry n h = grind role_frames

propose_campaign : (command : Command) (n m : Node) → propose command n ≡ some m → NoCampaign n m
unfolding propose
propose_campaign command n m e h = grind role_frames

answer_campaign : (msg : RaftMessage) (n : Node) → NoCampaign n (handle_request_vote_response msg n)
unfolding handle_request_vote_response count_vote
answer_campaign msg n h = grind (role_frames, become_leader_role)

-- The ticker has ended, no tick waits, and the node is no candidate.
record IsSilent (r : Runtime) : Type 0 where
  no_ticker : r.ticker_runs ≡ false
  no_tick : r.tick_pending ≡ false
  no_campaign : r.node.state ≢ candidate

handled-IsSilent :
    (n : Node) (r : Runtime) → IsSilent r → NoCampaign r.node n → IsSilent (handled n r)
unfolding handled
handled-IsSilent n r h k = record {
  no_ticker = h.no_ticker;
  no_tick = h.no_tick;
  no_campaign = λ c. h.no_campaign (k c);
}

dispatch-IsSilent : (msg : RaftMessage) (r : Runtime) → IsSilent r → IsSilent (dispatch msg r)
unfolding dispatch
dispatch-IsSilent msg r h = on msg.kind
  where
    same :
        (append_ch vote_ch install_ch : List RaftMessage)
        → IsSilent (record r { append_ch = append_ch; vote_ch = vote_ch; install_ch = install_ch })
    same a b c = record {
      no_ticker = h.no_ticker;
      no_tick = h.no_tick;
      no_campaign = h.no_campaign;
    }

    on :
        (kind : RaftMessageType)
        → IsSilent (elim kind [
          | msg_append_entries ↦ record r { append_ch = offer msg r.append_ch }
          | msg_append_entries_response ↦ handled (handle_append_entries_response msg r.node) r
          | msg_request_vote ↦ record r { vote_ch = offer msg r.vote_ch }
          | msg_request_vote_response ↦ handled (handle_request_vote_response msg r.node) r
          | msg_install_snapshot ↦ record r { install_ch = offer msg r.install_ch }
          | msg_install_snapshot_response ↦ r
          | msg_other n ↦ r
        ])
    on msg_append_entries = same (offer msg r.append_ch) r.vote_ch r.install_ch
    on msg_append_entries_response = handled-IsSilent _ r h (append_answer_campaign msg r.node)
    on msg_request_vote = same r.append_ch (offer msg r.vote_ch) r.install_ch
    on msg_request_vote_response = handled-IsSilent _ r h (answer_campaign msg r.node)
    on msg_install_snapshot = same r.append_ch r.vote_ch (offer msg r.install_ch)
    on msg_install_snapshot_response = h
    on (msg_other n) = h

-- If there is a result, it is silent.
abbrev Made : Option Runtime → Type 0
Made none = Unit
Made (some r) = IsSilent r

Made-some : (o : Option Runtime) (r : Runtime) → o ≡ some r → Made o → IsSilent r
Made-some o r e h = subst Made e h

-- The same state with other channels and another state machine.
others :
    (a v i : List RaftMessage) (l : List LogEntry) (s : SimpleStateMachine) (r : Runtime)
    → IsSilent r
    → IsSilent (record r { append_ch = a; vote_ch = v; install_ch = i; apply_ch = l; machine = s })
others a v i l s r h = record {
  no_ticker = h.no_ticker;
  no_tick = h.no_tick;
  no_campaign = h.no_campaign;
}

run_round-IsSilent : (c : Case) (r : Runtime) → IsSilent r → Made (run_round c r)
unfolding run_round
run_round-IsSilent on_tick r h =
    split_if Made r.tick_pending _ _ (λ y. absurd (ground (arith, h.no_tick))) (λ n. tt)
run_round-IsSilent on_append r h = on r.append_ch
  where
    on :
        (ch : List RaftMessage)
        → Made (elim ch [
          | [] ↦ none
          | msg ∷ rest ↦
              some (handled (handle_append_entries msg r.node) (record r { append_ch = rest }))
        ])
    on [] = tt
    on (msg ∷ rest) =
        handled-IsSilent _ _ (others rest r.vote_ch r.install_ch r.apply_ch r.machine r h)
          (append_campaign msg r.node)
run_round-IsSilent on_vote r h = on r.vote_ch
  where
    on :
        (ch : List RaftMessage)
        → Made (elim ch [
          | [] ↦ none
          | msg ∷ rest ↦
              some (handled (handle_request_vote msg r.node) (record r { vote_ch = rest }))
        ])
    on [] = tt
    on (msg ∷ rest) =
        handled-IsSilent _ _ (others r.append_ch rest r.install_ch r.apply_ch r.machine r h)
          (request_campaign msg r.node)
run_round-IsSilent on_apply r h = on r.apply_ch
  where
    on :
        (ch : List LogEntry)
        → Made (elim ch [
          | [] ↦ none
          | entry ∷ rest ↦ some (handled (apply_entry entry r.node) (record r { apply_ch = rest }))
        ])
    on [] = tt
    on (entry ∷ rest) =
        handled-IsSilent _ _ (others r.append_ch r.vote_ch r.install_ch rest r.machine r h)
          (apply_campaign entry r.node)
run_round-IsSilent (on_install spare restored machine) r h = on r.install_ch
  where
    on :
        (ch : List RaftMessage)
        → Made (elim ch [
          | [] ↦ none
          | msg ∷ rest ↦ elim (handle_install_snapshot spare restored msg r.node) [
            | none ↦ none
            | some n ↦ some (handled n (record r { install_ch = rest; machine = machine }))
          ]
        ])
    on [] = tt
    on (msg ∷ rest) =
        split_option Made (handle_install_snapshot spare restored msg r.node) _ _ (λ n. tt)
          (λ n took.
            handled-IsSilent _ _ (others r.append_ch r.vote_ch rest r.apply_ch machine r h)
              (install_campaign spare restored msg r.node n took))

Turn-IsSilent : {r r' : Runtime} → Turn r r' → IsSilent r → IsSilent r'
unfolding process_message send_tick heartbeat_fires ticker_reads apply_round stop propose_command
Turn-IsSilent {r} (received msg) h =
    split_if IsSilent r.tick_pending _ _ (λ y. absurd (ground (arith, h.no_tick)))
      (λ n. split_if IsSilent r.closed _ _ (λ y. h) (λ m. dispatch-IsSilent msg r h))
Turn-IsSilent {r} election_fired h =
    split_if IsSilent r.ticker_runs _ _ (λ y. absurd (ground (arith, h.no_ticker))) (λ n. h)
Turn-IsSilent {r} heartbeat_fired h =
    split_if IsSilent (state_beq r.node.state leader) _ _
      (λ y.
        split_if IsSilent r.ticker_runs _ _ (λ y. absurd (ground (arith, h.no_ticker))) (λ n. h))
      (λ n. h)
Turn-IsSilent {r} ticker_read h =
    split_if IsSilent r.ticker_runs _ _ (λ y. absurd (ground (arith, h.no_ticker))) (λ n. h)
Turn-IsSilent {r} (ran c {r'} room e) h = Made-some _ r' e (run_round-IsSilent c r h)
Turn-IsSilent {r} applied h = on r.apply_ch
  where
    on :
        (ch : List LogEntry)
        → IsSilent (elim ch [
          | [] ↦ r
          | entry ∷ rest ↦ record r {
            machine = (StateMachine.apply_entry entry r.machine).0;
            apply_ch = rest;
          }
        ])
    on [] = h
    on (entry ∷ rest) =
        others r.append_ch r.vote_ch r.install_ch rest (StateMachine.apply_entry entry r.machine).0
          r h
Turn-IsSilent {r} (Runtime.proposed command {r'} e) h = Made-some _ r' e (
    split_option Made (propose command r.node) _ _ (λ n. tt)
      (λ n took. handled-IsSilent n r h (propose_campaign command r.node n took)))
Turn-IsSilent {r} stopped h = record {
  no_ticker = h.no_ticker;
  no_tick = h.no_tick;
  no_campaign = h.no_campaign;
}

Run-IsSilent : {r r' : Runtime} → Run r r' → IsSilent r → IsSilent r'
Run-IsSilent begin h = h
Run-IsSilent (turn run t) h = Turn-IsSilent t (Run-IsSilent run h)

-- The ticker reads the channel that it sends on. If the election timer fires while the node is no
-- candidate, and the ticker receives its own tick before run does, the node never becomes a candidate
-- again: not after any further turns of its goroutines, timers, callers and Stop.
pub own_tick_ends_elections :
    (r r' : Runtime)
    → r.ticker_runs ≡ true
    → r.node.state ≢ candidate
    → Run (ticker_reads (send_tick r)) r'
    → r'.node.state ≢ candidate
own_tick_ends_elections r r' runs calm run = (Run-IsSilent run (ended r runs calm)).no_campaign
  where
    ended :
        (r : Runtime)
        → r.ticker_runs ≡ true
        → r.node.state ≢ candidate
        → IsSilent (ticker_reads (send_tick r))
    ended r runs calm =
        unfold ticker_reads send_tick in
        split_if (λ (x : Runtime). IsSilent (ticker_reads x)) r.ticker_runs _ _
          (λ y.
            split_if IsSilent r.ticker_runs _ _
              (λ z. record { no_ticker = refl; no_tick = refl; no_campaign = calm })
              (λ n. absurd (ground (arith, runs))))
          (λ n. absurd (ground (arith, runs)))
