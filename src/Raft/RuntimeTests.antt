-- ===== src/Raft/RuntimeTests.antt =====
-- The theorems on the goroutines of a node of internal/raft/raft.go at work.
use my_etcd.Base.{◌+◌, ◌<◌, ◌≡◌, ◌≢◌, refl, true, some, [], ◌∷◌, arith}
use my_etcd.Base.Words.{u64_mod}
use my_etcd.Types.{candidate}
use my_etcd.Raft.Node.{new_node}
use my_etcd.Raft.Replication.{handle_append_entries}
use my_etcd.Raft.StateMachine.{new_state_machine}
use my_etcd.Raft.Examples.{n1, member, heartbeat}
use my_etcd.Raft.Runtime.{
  Runtime, Run, election_fired, ran, start, handled, offer, dispatch, process_message, send_tick,
  ticker_reads, on_append, run_round, begin, turn, received,
}
use my_etcd.Raft.Accounts.{Accounts, votes_in, appends_in, installs_in, answers_in, fires_in}
use my_etcd.Raft.Interleaving.{Run-Accounts}
use my_etcd.Raft.Silence.{own_tick_ends_elections}

abbrev started : Runtime
started = start (member n1).config new_state_machine

-- The heartbeat waits in its channel, and the election timer has fired.
abbrev busy : Runtime
busy = send_tick (process_message heartbeat started)

abbrev beaten : Runtime
beaten = handled (handle_append_entries heartbeat busy.node) (record busy { append_ch = [] })

takes_heartbeat : run_round on_append busy ≡ some beaten
unfolding run_round start send_tick process_message dispatch offer
takes_heartbeat = refl

room : busy.node.current_term + 1 < u64_mod
unfolding start send_tick process_message dispatch new_node
room = omega arith

-- The heartbeat comes in, the election timer fires, and run takes the heartbeat.
abbrev history : Run started beaten
history =
    turn (turn (turn begin (received heartbeat)) election_fired)
      (ran on_append room takes_heartbeat)

Run-Accounts_example :
    Accounts started beaten
      (votes_in history)
      (appends_in history)
      (installs_in history)
      (answers_in history)
      (fires_in history)
Run-Accounts_example = Run-Accounts history

-- The heartbeat is the one message that came in.
appends_in-history : appends_in history ≡ heartbeat ∷ []
unfolding start
appends_in-history = refl

calm : started.node.state ≢ candidate
unfolding start new_node
calm p = cc

ticking : started.ticker_runs ≡ true
unfolding start
ticking = refl

own_tick_ends_elections_example :
    (process_message heartbeat (ticker_reads (send_tick started))).node.state ≢ candidate
own_tick_ends_elections_example =
    own_tick_ends_elections started (process_message heartbeat (ticker_reads (send_tick started)))
      ticking calm (turn begin (received heartbeat))
