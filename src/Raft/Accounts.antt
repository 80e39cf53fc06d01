-- ===== src/Raft/Accounts.antt =====
-- The accounts of a Raft node's channels in internal/raft/raft.go: what is sent on them, what the
-- handlers get, and what still waits.
use my_etcd.Base.{
  ℕ, ◌+◌, ◌≤◌, ◌≡◌, Bool, true, false, ◌||◌, ◌&&◌, List, [], ◌∷◌, ◌++◌, length, ltb, if◌then◌else◌,
}
use my_etcd.Types.{
  RaftMessage, RaftMessageType, msg_append_entries, msg_request_vote, msg_install_snapshot,
  msg_request_vote_response, msg_append_entries_response,
}
use my_etcd.Raft.Node.{Node}
use my_etcd.Raft.Steps.{
  Step, ticked, appended, asked, installed, answered, append_answered, Reach, here, next,
}
use my_etcd.Raft.Runtime.{
  Runtime, Turn, received, election_fired, heartbeat_fired, Run, begin, turn,
}

-- The messages that the handlers of RequestVote, AppendEntries and InstallSnapshot and of the answers to
-- the first two get in one step and in a sequence of steps, and the number of ticks that are handled.
abbrev pub asked_at : {n m : Node} → Step n m → List RaftMessage
asked_at (asked msg e) = msg ∷ []
asked_at _ = []

abbrev pub appended_at : {n m : Node} → Step n m → List RaftMessage
appended_at (appended msg e) = msg ∷ []
appended_at _ = []

abbrev pub installed_at : {n m : Node} → Step n m → List RaftMessage
installed_at (installed spare restored msg e) = msg ∷ []
installed_at _ = []

abbrev pub answered_at : {n m : Node} → Step n m → List RaftMessage
answered_at (answered msg e) = msg ∷ []
answered_at (append_answered msg e) = msg ∷ []
answered_at _ = []

abbrev pub ticks_at : {n m : Node} → Step n m → ℕ
ticks_at (ticked room e) = 1
ticks_at _ = 0

abbrev pub asked_in : {n m : Node} → Reach n m → List RaftMessage
asked_in here = []
asked_in (next steps s) = asked_in steps ++ asked_at s

abbrev pub appended_in : {n m : Node} → Reach n m → List RaftMessage
appended_in here = []
appended_in (next steps s) = appended_in steps ++ appended_at s

abbrev pub installed_in : {n m : Node} → Reach n m → List RaftMessage
installed_in here = []
installed_in (next steps s) = installed_in steps ++ installed_at s

abbrev pub answered_in : {n m : Node} → Reach n m → List RaftMessage
answered_in here = []
answered_in (next steps s) = answered_in steps ++ answered_at s

abbrev pub ticks_in : {n m : Node} → Reach n m → ℕ
ticks_in here = 0
ticks_in (next steps s) = ticks_in steps + ticks_at s

abbrev pub is_vote : RaftMessageType → Bool
is_vote msg_request_vote = true
is_vote _ = false

abbrev pub is_append : RaftMessageType → Bool
is_append msg_append_entries = true
is_append _ = false

abbrev pub is_install : RaftMessageType → Bool
is_install msg_install_snapshot = true
is_install _ = false

abbrev pub is_answer : RaftMessageType → Bool
is_answer msg_request_vote_response = true
is_answer msg_append_entries_response = true
is_answer _ = false

-- What a channel of 1000 takes of a message that fits it or not.
abbrev pub fitting : Bool → List RaftMessage → RaftMessage → List RaftMessage
fitting fits ch msg = if fits && ltb (length ch) 1000 then msg ∷ [] else []

-- The same of a message that comes in: nothing where a tick waits or the node is stopped.
abbrev pub accepted : Bool → List RaftMessage → RaftMessage → Runtime → List RaftMessage
accepted fits ch msg r = if r.tick_pending || r.closed then [] else fitting fits ch msg

-- An answer that comes in is handled at once, where no tick waits and the node is not stopped.
abbrev pub answer : Bool → RaftMessage → List RaftMessage
answer fits msg = if fits then msg ∷ [] else []

abbrev pub accepted_answer : RaftMessage → Runtime → List RaftMessage
accepted_answer msg r = if r.tick_pending || r.closed then [] else answer (is_answer msg.kind) msg

-- The messages that a turn and a run put on the channels, the answers that come in, and the number of
-- times the ticker's timers fired.
abbrev pub votes_at : {r k : Runtime} → Turn r k → List RaftMessage
votes_at {r} (received msg) = accepted (is_vote msg.kind) r.vote_ch msg r
votes_at _ = []

abbrev pub appends_at : {r k : Runtime} → Turn r k → List RaftMessage
appends_at {r} (received msg) = accepted (is_append msg.kind) r.append_ch msg r
appends_at _ = []

abbrev pub installs_at : {r k : Runtime} → Turn r k → List RaftMessage
installs_at {r} (received msg) = accepted (is_install msg.kind) r.install_ch msg r
installs_at _ = []

abbrev pub answers_at : {r k : Runtime} → Turn r k → List RaftMessage
answers_at {r} (received msg) = accepted_answer msg r
answers_at _ = []

abbrev pub fires_at : {r k : Runtime} → Turn r k → ℕ
fires_at election_fired = 1
fires_at heartbeat_fired = 1
fires_at _ = 0

abbrev pub votes_in : {r k : Runtime} → Run r k → List RaftMessage
votes_in begin = []
votes_in (turn run t) = votes_in run ++ votes_at t

abbrev pub appends_in : {r k : Runtime} → Run r k → List RaftMessage
appends_in begin = []
appends_in (turn run t) = appends_in run ++ appends_at t

abbrev pub installs_in : {r k : Runtime} → Run r k → List RaftMessage
installs_in begin = []
installs_in (turn run t) = installs_in run ++ installs_at t

abbrev pub answers_in : {r k : Runtime} → Run r k → List RaftMessage
answers_in begin = []
answers_in (turn run t) = answers_in run ++ answers_at t

abbrev pub fires_in : {r k : Runtime} → Run r k → ℕ
fires_in begin = 0
fires_in (turn run t) = fires_in run + fires_at t

-- The tick that waits in tickCh.
abbrev pub waiting : Runtime → ℕ
waiting r = if r.tick_pending then 1 else 0

-- A channel that held `before` and got `taken_in` has given out `handed` and holds `after`.
abbrev pub Balance :
    List RaftMessage → List RaftMessage → List RaftMessage → List RaftMessage → Type 0
Balance handed after before taken_in = handed ++ after ≡ before ++ taken_in

-- The steps of handlers between two states of the runtime: they got what was put on the channels, in
-- that order and each message once, but for what still waits, all answers that came in, and at most one tick for each time that
-- a timer fired.
pub record Accounts (r k : Runtime) (votes appends installs answers : List RaftMessage) (fires : ℕ)
    : Type 0 where
  pub steps : Reach r.node k.node
  pub votes_lem : Balance (asked_in steps) k.vote_ch r.vote_ch votes
  pub appends_lem : Balance (appended_in steps) k.append_ch r.append_ch appends
  pub installs_lem : Balance (installed_in steps) k.install_ch r.install_ch installs
  pub answers_lem : answered_in steps ≡ answers
  pub ticks_lem : ticks_in steps + waiting k ≤ waiting r + fires
