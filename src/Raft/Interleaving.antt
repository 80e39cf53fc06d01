-- ===== src/Raft/Interleaving.antt =====
-- The goroutines of a Raft node of internal/raft/raft.go against its handlers, in any interleaving:
-- what they take from the channels.
use my_etcd.Base.{refl, ◌||◌, List, [], ◌∷◌, split_if, Bool, true, arith}
use my_etcd.Types.{LogEntry, leader}
use my_etcd.Raft.Node.{state_beq}
use my_etcd.Raft.Steps.{here}
use my_etcd.Raft.StateMachine
use my_etcd.Raft.Runtime.{
  Runtime, send_tick, heartbeat_fires, ticker_reads, apply_round, stop, Turn, Run, begin, turn,
}
use my_etcd.Raft.Balances.{unchanged, Accounts-both, idle-Accounts}
use my_etcd.Raft.Accounts.{
  answers_at, answers_in, votes_at, appends_at, installs_at, fires_at, votes_in, appends_in,
  installs_in, fires_in, Accounts,
}
use my_etcd.Raft.Runtime
use my_etcd.Raft.Arrivals.{process_message-Accounts}
use my_etcd.Raft.Turns.{run_round-Made, propose_command-Made}

-- A turn that puts a tick on tickCh or takes one from it, and does nothing else.
tick_set :
    (r : Runtime) (b runs : Bool)
    → Accounts r (record r { tick_pending = b; ticker_runs = runs }) [] [] [] [] 1
tick_set r b runs = record {
  steps = here;
  votes_lem = unchanged r.vote_ch;
  appends_lem = unchanged r.append_ch;
  installs_lem = unchanged r.install_ch;
  answers_lem = refl;
  ticks_lem = ground arith;
}

send_tick-Accounts : (r : Runtime) → Accounts r (send_tick r) [] [] [] [] 1
unfolding send_tick
send_tick-Accounts r =
    split_if (λ (k : Runtime). Accounts r k [] [] [] [] 1) r.ticker_runs _ _
      (λ y. tick_set r true r.ticker_runs) (λ n. idle-Accounts r 1)

ticker_reads-Accounts : (r : Runtime) → Accounts r (ticker_reads r) [] [] [] [] 0
unfolding ticker_reads
ticker_reads-Accounts r =
    split_if (λ (k : Runtime). Accounts r k [] [] [] [] 0) r.ticker_runs _ _
      (λ y.
        split_if (λ (k : Runtime). Accounts r k [] [] [] [] 0) (r.tick_pending || r.closed) _ _
          (λ p. record {
            steps = here;
            votes_lem = unchanged r.vote_ch;
            appends_lem = unchanged r.append_ch;
            installs_lem = unchanged r.install_ch;
            answers_lem = refl;
            ticks_lem = omega arith;
          })
          (λ p. idle-Accounts r 0))
      (λ n. idle-Accounts r 0)

apply_round-Accounts : (r : Runtime) → Accounts r (apply_round r) [] [] [] [] 0
unfolding apply_round
apply_round-Accounts r = on r.apply_ch
  where
    on :
        (ch : List LogEntry)
        → Accounts r
            (elim ch [
              | [] ↦ r
              | entry ∷ rest ↦ record r {
                machine = (StateMachine.apply_entry entry r.machine).0;
                apply_ch = rest;
              }
            ])
            []
            []
            []
            []
            0
    on [] = idle-Accounts r 0
    on (entry ∷ rest) = record {
      steps = here;
      votes_lem = unchanged r.vote_ch;
      appends_lem = unchanged r.append_ch;
      installs_lem = unchanged r.install_ch;
      answers_lem = refl;
      ticks_lem = omega arith;
    }

Turn-Accounts :
    {r k : Runtime} (t : Turn r k)
    → Accounts r k (votes_at t) (appends_at t) (installs_at t) (answers_at t) (fires_at t)
unfolding heartbeat_fires stop
Turn-Accounts {r} (Runtime.received msg) = process_message-Accounts msg r
Turn-Accounts {r} Runtime.election_fired = send_tick-Accounts r
Turn-Accounts {r} Runtime.heartbeat_fired =
    split_if (λ (k : Runtime). Accounts r k [] [] [] [] 1) (state_beq r.node.state leader) _ _
      (λ y. send_tick-Accounts r) (λ n. idle-Accounts r 1)
Turn-Accounts {r} Runtime.ticker_read = ticker_reads-Accounts r
Turn-Accounts {r} (Runtime.ran c {r'} room e) = run_round-Made c r room r' e
Turn-Accounts {r} Runtime.applied = apply_round-Accounts r
Turn-Accounts {r} (Runtime.proposed command {r'} e) = propose_command-Made command r r' e
Turn-Accounts {r} Runtime.stopped = record {
  steps = here;
  votes_lem = unchanged r.vote_ch;
  appends_lem = unchanged r.append_ch;
  installs_lem = unchanged r.install_ch;
  answers_lem = refl;
  ticks_lem = omega arith;
}

-- Whatever way the goroutines of a node (ticker, run, applyLoop), the callers of ProcessMessage and
-- Propose, the timers and Stop interleave, while the term has room in its uint64: the node's state
-- comes about by handlers, one after the other, that account for the channels. The RequestVote messages
-- that the handler got, followed by those that wait in their channel, are those that waited at the
-- start, followed by those that came in while no tick waited, Stop had not been called and fewer than
-- 1000 waited, in that order: none is lost later, made up, handled twice or out of turn. The same holds
-- of AppendEntries and InstallSnapshot. The answers to RequestVote and AppendEntries that the handlers
-- got are those that came in while no tick waited and Stop had not been called. The ticks that were handled, with the one that waits, are at
-- most one that waited at the start and one for each time that a timer fired.
pub Run-Accounts :
    {r k : Runtime} (run : Run r k)
    → Accounts r k (votes_in run) (appends_in run) (installs_in run) (answers_in run) (fires_in run)
Run-Accounts {r} begin = idle-Accounts r 0
Run-Accounts (turn run t) = Accounts-both (Run-Accounts run) (Turn-Accounts t)
