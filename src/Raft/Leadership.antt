-- ===== src/Raft/Leadership.antt =====
-- Who becomes the leader in internal/raft/raft.go, and on which votes.
use my_etcd.Base.{
  ℕ, zero, suc, ◌+◌, ◌*◌, ◌<◌, ◌≤◌, ◌≡◌, ◌≢◌, inl, inr, refl, sym, ap, subst, ◌∙◌, Bool, true,
  false, Option, some, List, [], ◌∷◌, ◌++◌, Bytes, length, leb, ◌==◌, if◌then◌else◌, bytes_eq,
  nat_eq, arith, Bool-cases, bytes_beq_iff, eq_self, All, Elem,
}
use my_etcd.Base.GoMap.{lookup-insert}
use my_etcd.Types.{Command, LogEntry, RaftMessage, candidate, leader}
use my_etcd.Raft.Node.{
  Node, Effect, send, reset_election, each_peer, index_of, send_heartbeats, send_append,
  send_log_entries, notify_ready, adopt_term, respond,
}
use my_etcd.Raft.Election.{
  start_election, become_candidate, init_peer, become_leader, tick, handle_request_vote,
  vote_response, count_vote, needed_votes, handle_request_vote_response,
}
use my_etcd.Raft.Replication.{
  append_response, follow_commit, handle_append_entries, snapshot_response, handle_install_snapshot,
  apply_entry, check_commit_index, record_match, retry_append, handle_append_entries_response,
  propose,
}
use my_etcd.Raft.Frame.{
  send_log_entries-OnlyEffects, send_heartbeats-OnlyEffects, start_election-OnlyEffects,
  respond-OnlyEffects, notify_ready-OnlyApplied, become_leader_frame,
}
use my_etcd.Raft.Steps.{
  Step, ticked, appended, append_answered, asked, answered, installed, took_entry, proposed,
}

-- One step to leadership: a candidate whose count, with one vote more, is more than half of the number
-- of the cluster's nodes.
pub record Elected (n m : Node) : Type 0 where
  pub was_candidate : n.state ≡ candidate
  pub majority : length n.config.cluster_nodes < 2 * (n.votes_received + 1)
  pub same_term : m.current_term ≡ n.current_term

-- The role is kept, or the node steps down.
abbrev NoNewLeader : Node → Node → Type 0
NoNewLeader n m = m.state ≡ leader → n.state ≡ leader

pub respond_role : (to : Bytes) (msg : RaftMessage) (n : Node) → (respond to msg n).state ≡ n.state
respond_role to msg n = ap (λ (k : Node). k.state) (respond-OnlyEffects to msg n)

pub heartbeats_role : (n : Node) → (send_heartbeats n).state ≡ n.state
heartbeats_role n = ap (λ (k : Node). k.state) (send_heartbeats-OnlyEffects n)

pub log_entries_role : (n : Node) → (send_log_entries n).state ≡ n.state
log_entries_role n = ap (λ (k : Node). k.state) (send_log_entries-OnlyEffects n)

pub election_role : (n : Node) → (start_election n).state ≡ n.state
election_role n = ap (λ (k : Node). k.state) (start_election-OnlyEffects n)

pub notify_role : (n : Node) → (notify_ready n).state ≡ n.state
notify_role n = ap (λ (k : Node). k.state) (notify_ready-OnlyApplied n)

pub leader_term : (n : Node) → (become_leader n).current_term ≡ n.current_term
leader_term n = ap (λ (k : Node). k.current_term) (become_leader_frame n)

pub ruleset role_frames = (
  arith, respond_role, heartbeats_role, log_entries_role, election_role, notify_role, leader_term,
)

tick_role : (n : Node) → NoNewLeader n (tick n)
unfolding tick become_candidate
tick_role n h = grind role_frames

append_role : (msg : RaftMessage) (n : Node) → NoNewLeader n (handle_append_entries msg n)
unfolding handle_append_entries append_response adopt_term follow_commit
append_role msg n h = grind role_frames

append_answer_role :
    (msg : RaftMessage) (n : Node) → NoNewLeader n (handle_append_entries_response msg n)
unfolding handle_append_entries_response record_match retry_append send_append check_commit_index
append_answer_role msg n h = grind role_frames

request_role : (msg : RaftMessage) (n : Node) → NoNewLeader n (handle_request_vote msg n)
unfolding handle_request_vote vote_response adopt_term
request_role msg n h = grind role_frames

install_role :
    (spare : List LogEntry → ℕ → Option (List LogEntry)) (restored : Bool) (msg : RaftMessage)
    (n m : Node)
    → handle_install_snapshot spare restored msg n ≡ some m
    → NoNewLeader n m
unfolding handle_install_snapshot adopt_term snapshot_response
install_role spare restored msg n m e h = grind role_frames

apply_role : (entry : LogEntry) (n : Node) → NoNewLeader n (apply_entry entry n)
unfolding apply_entry
apply_role entry n h = grind role_frames

propose_role : (command : Command) (n m : Node) → propose command n ≡ some m → NoNewLeader n m
unfolding propose
propose_role command n m e h = grind role_frames

answer_elects :
    (msg : RaftMessage) (n : Node)
    → n.state ≢ leader
    → (handle_request_vote_response msg n).state ≡ leader
    → Elected n (handle_request_vote_response msg n)
unfolding handle_request_vote_response count_vote needed_votes
answer_elects msg n old new = grind role_frames

-- A node that is not the leader becomes it in one handler call only as a candidate whose count,
-- with this vote, is more than half of the number of the cluster's nodes, and keeps its term.
pub Step-Elected : {n m : Node} → Step n m → n.state ≢ leader → m.state ≡ leader → Elected n m
Step-Elected {n} (ticked room e) old new = absurd (old (tick_role n (rw (← e) new)))
Step-Elected {n} (appended msg e) old new = absurd (old (append_role msg n (rw (← e) new)))
Step-Elected {n} (append_answered msg e) old new =
    absurd (old (append_answer_role msg n (rw (← e) new)))
Step-Elected {n} (asked msg e) old new = absurd (old (request_role msg n (rw (← e) new)))
Step-Elected {n} (answered msg e) old new = rw e (answer_elects msg n old (rw (← e) new))
Step-Elected {n} {m} (installed spare ok msg e) old new =
    absurd (old (install_role spare ok msg n m e new))
Step-Elected {n} (took_entry entry e) old new = absurd (old (apply_role entry n (rw (← e) new)))
Step-Elected {n} {m} (proposed command e) old new = absurd (old (propose_role command n m e new))

-- The same response handed over again and again.
abbrev pub deliver : ℕ → RaftMessage → Node → Node
deliver zero msg n = n
deliver (suc k) msg n = deliver k msg (handle_request_vote_response msg n)

deliver_leader :
    (k : ℕ) (msg : RaftMessage) (n : Node) → n.state ≡ leader → (deliver k msg n).state ≡ leader
deliver_leader zero msg n h = h
deliver_leader (suc k) msg n h =
    deliver_leader k msg _ (unfold handle_request_vote_response in ground arith)

pub become_leader_role : (n : Node) → (become_leader n).state ≡ leader
become_leader_role n = ap (λ (k : Node). k.state) (become_leader_frame n)

answer_counts :
    (msg : RaftMessage) (n : Node)
    → n.state ≡ candidate
    → msg.from_id ≢ []
    → msg.term ≡ n.current_term
    → msg.vote_granted ≡ true
    → handle_request_vote_response msg n ≡ count_vote n
unfolding handle_request_vote_response
answer_counts msg n c named t g = ground (arith, bytes_beq_iff msg.from_id [])

-- Votes are counted by message and not by voter: a candidate that is handed one granted vote of
-- its term `k` times, from one named node, becomes the leader once the count reaches a majority.
pub repeated_vote_elects :
    (k : ℕ) (msg : RaftMessage) (n : Node)
    → n.state ≡ candidate
    → msg.from_id ≢ []
    → msg.term ≡ n.current_term
    → msg.vote_granted ≡ true
    → n.votes_received < needed_votes n
    → needed_votes n ≤ n.votes_received + k
    → (deliver k msg n).state ≡ leader
unfolding count_vote needed_votes
repeated_vote_elects zero msg n c named t g few enough = absurd (omega arith)
repeated_vote_elects (suc k) msg n c named t g few enough =
    subst (λ (m : Node). (deliver k msg m).state ≡ leader) (sym (answer_counts msg n c named t g))
      (elim (Bool-cases (leb (needed_votes n) (n.votes_received + 1))) [
        | inl e ↦ rw e (deliver_leader k msg _ (become_leader_role _))
        | inr e ↦ rw e (repeated_vote_elects k msg _ c named t g (ground arith) (omega arith))
      ])

-- nextIndex of a node is `len`, and its matchIndex 0.
abbrev pub PeerReset : Node → ℕ → Bytes → Type 0
PeerReset n len p = (index_of n.next_index p ≡ len) × (index_of n.match_index p ≡ 0)

PeerReset-init_peers :
    (self : Bytes) (len : ℕ) (ps : List Bytes) (n : Node) (p : Bytes)
    → PeerReset n len p
    → PeerReset (each_peer self (init_peer len) ps n) len p
unfolding each_peer
PeerReset-init_peers self len [] n p h = h
PeerReset-init_peers self len (q ∷ ps) n p h =
    elim (q == self)
      as (λ b.
        PeerReset (each_peer self (init_peer len) ps (if b then n else init_peer len q n)) len p) [
          | true ↦ PeerReset-init_peers self len ps n p h
          | false ↦ PeerReset-init_peers self len ps (init_peer len q n) p (
              unfold init_peer index_of in
              ground (
                arith,
                lookup-insert q p len n.next_index,
                lookup-insert q p 0 n.match_index,
                bytes_beq_iff q p,
              ))
        ]

init_peer-PeerReset : (len : ℕ) (p : Bytes) (n : Node) → PeerReset (init_peer len p n) len p
unfolding init_peer index_of
init_peer-PeerReset len p n = ground (
  arith,
  lookup-insert p p len n.next_index,
  lookup-insert p p 0 n.match_index,
  bytes_beq_iff p p,
)

fresh_peer :
    (self : Bytes) (len : ℕ) (ps : List Bytes) (n : Node) (p : Bytes) (b : Bool)
    → b ≢ true
    → PeerReset (each_peer self (init_peer len) ps (if b then n else init_peer len p n)) len p
fresh_peer self len ps n p true h = absurd (h refl)
fresh_peer self len ps n p false h =
    PeerReset-init_peers self len ps (init_peer len p n) p (init_peer-PeerReset len p n)

init_peers-PeerReset :
    (self : Bytes) (len : ℕ) (ps : List Bytes) (n : Node)
    → All (λ p. p ≢ self → PeerReset (each_peer self (init_peer len) ps n) len p) ps
unfolding each_peer
init_peers-PeerReset self len [] n = tt
init_peers-PeerReset self len (q ∷ ps) n = (
  λ other. fresh_peer self len ps n q (q == self) (λ e. other ((bytes_beq_iff q self).0 e)),
  init_peers-PeerReset self len ps (if q == self then n else init_peer len q n),
)

-- A new leader has, for every other node of the cluster, nextIndex at the end of its log and
-- matchIndex 0, whatever the two maps held before.
pub become_leader-PeerReset :
    (n : Node) (p : Bytes)
    → Elem p n.config.cluster_nodes
    → p ≢ n.config.node_id
    → PeerReset (become_leader n) (length n.log) p
become_leader-PeerReset n p there other =
    All-Elem (λ (q : Bytes). q ≢ n.config.node_id → PeerReset (become_leader n) (length n.log) q) p
      n.config.cluster_nodes
      (rw (become_leader_frame n) (
        init_peers-PeerReset n.config.node_id (length n.log) n.config.cluster_nodes
          (record n { state = leader })))
      there other
  where
    All-Elem : (P : Bytes → Type 0) (x : Bytes) (xs : List Bytes) → All P xs → Elem x xs → P x
    All-Elem P x (y ∷ ys) a (inl e) = subst P e a.0
    All-Elem P x (y ∷ ys) a (inr h) = All-Elem P x ys a.1 h
    All-Elem P x [] a h = absurd h

-- Timer steps with nothing delivered in between.
abbrev pub ticks : ℕ → Node → Node
ticks zero n = n
ticks (suc k) n = ticks k (tick n)

-- The number of messages put out.
abbrev pub sent : List Effect → ℕ
sent [] = 0
sent (send to msg ∷ rest) = suc (sent rest)
sent (_ ∷ rest) = sent rest

sent-append : (xs ys : List Effect) → sent (xs ++ ys) ≡ sent xs + sent ys
sent-append [] ys = omega arith
sent-append (send to msg ∷ xs) ys = omega (arith, sent-append xs ys)
sent-append (_ ∷ xs) ys = sent-append xs ys

-- What a node that is alone in its cluster keeps.
abbrev IsQuiet : Node → Node → Type 0
IsQuiet n m = (m.state ≢ leader) × (sent m.effects ≡ sent n.effects) × (m.config ≡ n.config)

tick-IsQuiet :
    (n : Node)
    → n.config.cluster_nodes ≡ n.config.node_id ∷ []
    → n.state ≢ leader
    → IsQuiet n (tick n)
unfolding tick become_candidate start_election each_peer
tick-IsQuiet n alone h =
    rw alone (ground (arith, sent-append n.effects (reset_election ∷ []), eq_self n.config.node_id))

-- In a cluster of one a node never becomes the leader: from a state in which it does not lead, any
-- number of timer steps leaves it not leading, and it sends nothing.
pub alone_never_leads :
    (k : ℕ) (n : Node)
    → n.config.cluster_nodes ≡ n.config.node_id ∷ []
    → n.state ≢ leader
    → ((ticks k n).state ≢ leader) × (sent (ticks k n).effects ≡ sent n.effects)
alone_never_leads zero n alone h = (h, refl)
alone_never_leads (suc k) n alone h =
    let q = tick-IsQuiet n alone h in
    let r = alone_never_leads k (tick n) (rw q.2 alone) q.0 in (r.0, r.1 ∙ q.1)
