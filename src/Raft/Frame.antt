-- ===== src/Raft/Frame.antt =====
-- What the helpers of internal/raft/raft.go leave alone: the loops that only send change nothing
-- but the outputs, and applying entries changes lastApplied and the outputs.
use my_etcd.Base.{
  ℕ, zero, suc, ◌-◌, ◌≡◌, refl, ap, ◌∙◌, true, false, List, [], ◌∷◌, Bytes, length, ltb, ◌==◌,
  if◌then◌else◌, bytes_eq, nat_eq, arith, Bool-cases, inl, inr,
}
use my_etcd.Types.{RaftMessage, NodeState}
use my_etcd.Raft.Node.{
  Node, reset_heartbeat, emit, each_peer, send_append, send_heartbeats, send_log_entries,
  apply_next, notify_loop, notify_ready, respond,
}
use my_etcd.Raft.Election.{start_election, init_peer, become_leader}

-- All fields but the outputs agree.
abbrev pub OnlyEffects : Node → Node → Type 0
OnlyEffects n m = m ≡ record n { effects = m.effects }

pub each_peer-OnlyEffects :
    (self : Bytes) (f : Bytes → Node → Node)
    → ((p : Bytes) (n : Node) → OnlyEffects n (f p n))
    → (ps : List Bytes) (n : Node) → OnlyEffects n (each_peer self f ps n)
unfolding each_peer
each_peer-OnlyEffects self f h [] n = refl
each_peer-OnlyEffects self f h (p ∷ ps) n =
    elim (p == self) as (λ b. OnlyEffects n (each_peer self f ps (if b then n else f p n))) [
      | true ↦ each_peer-OnlyEffects self f h ps n
      | false ↦
          each_peer-OnlyEffects self f h ps (f p n)
          ∙ ap (λ (k : Node). record k { effects = (each_peer self f ps (f p n)).effects }) (h p n)
    ]

pub send_log_entries-OnlyEffects : (n : Node) → OnlyEffects n (send_log_entries n)
unfolding send_log_entries
send_log_entries-OnlyEffects n =
    each_peer-OnlyEffects _ send_append (λ p m. unfold send_append in refl) _ n

pub send_heartbeats-OnlyEffects : (n : Node) → OnlyEffects n (send_heartbeats n)
unfolding send_heartbeats
send_heartbeats-OnlyEffects n =
    ap (λ (k : Node). record k { effects = (send_heartbeats n).effects })
      (each_peer-OnlyEffects _ send_append (λ p m. unfold send_append in refl)
        n.config.cluster_nodes n)

pub start_election-OnlyEffects :
    (n : Node) → OnlyEffects (record n { votes_received = 1 }) (start_election n)
unfolding start_election
start_election-OnlyEffects n = each_peer-OnlyEffects _ _ (λ p m. refl) _ _

pub respond-OnlyEffects :
    (to : Bytes) (msg : RaftMessage) (n : Node) → OnlyEffects n (respond to msg n)
unfolding respond
respond-OnlyEffects to msg n = ground arith

-- All fields but the outputs and lastApplied agree.
abbrev pub OnlyApplied : Node → Node → Type 0
OnlyApplied n m = m ≡ record n { effects = m.effects; last_applied = m.last_applied }

apply_next-OnlyApplied : (n : Node) → OnlyApplied n (apply_next n)
unfolding apply_next
apply_next-OnlyApplied n = ground arith

notify_loop-OnlyApplied : (fuel : ℕ) (n : Node) → OnlyApplied n (notify_loop fuel n)
unfolding notify_loop
notify_loop-OnlyApplied zero n = refl
notify_loop-OnlyApplied (suc fuel) n = elim (Bool-cases (ltb n.last_applied n.commit_index)) [
  | inl e ↦ rw e (
      notify_loop-OnlyApplied fuel (apply_next n)
      ∙ ap
          (λ (k : Node). record k {
            effects = (notify_loop fuel (apply_next n)).effects;
            last_applied = (notify_loop fuel (apply_next n)).last_applied;
          })
          (apply_next-OnlyApplied n))
  | inr e ↦ rw e
]

pub notify_ready-OnlyApplied : (n : Node) → OnlyApplied n (notify_ready n)
unfolding notify_ready
notify_ready-OnlyApplied n =
    ap (λ (k : Node). record k { effects = (notify_ready n).effects })
      (notify_loop-OnlyApplied (n.commit_index - n.last_applied) n)

-- All fields but the two index maps agree.
abbrev OnlyIndexes : Node → Node → Type 0
OnlyIndexes n m = m ≡ record n { next_index = m.next_index; match_index = m.match_index }

init_peers-OnlyIndexes :
    (self : Bytes) (len : ℕ) (ps : List Bytes) (n : Node)
    → OnlyIndexes n (each_peer self (init_peer len) ps n)
unfolding each_peer init_peer
init_peers-OnlyIndexes self len [] n = refl
init_peers-OnlyIndexes self len (p ∷ ps) n =
    elim (p == self)
      as (λ b.
        OnlyIndexes n (each_peer self (init_peer len) ps (if b then n else init_peer len p n))) [
          | true ↦ init_peers-OnlyIndexes self len ps n
          | false ↦ init_peers-OnlyIndexes self len ps _
        ]

-- The index maps of a new leader.
abbrev pub init_peers : Node → Node
init_peers n =
    each_peer n.config.node_id (init_peer (length n.log)) n.config.cluster_nodes
      (record n { state = NodeState.leader })

-- Becoming the leader changes the role, the two index maps and the outputs.
pub become_leader_frame :
    (n : Node)
    → become_leader n ≡ record n {
      state = NodeState.leader;
      next_index = (init_peers n).next_index;
      match_index = (init_peers n).match_index;
      effects = (become_leader n).effects;
    }
unfolding become_leader
become_leader_frame n =
    send_heartbeats-OnlyEffects (emit reset_heartbeat (init_peers n))
    ∙ ap (λ (k : Node). record k { effects = (become_leader n).effects })
        (init_peers-OnlyIndexes n.config.node_id (length n.log) n.config.cluster_nodes
          (record n { state = NodeState.leader }))
