-- ===== src/Raft/Sync.antt =====
-- One round of replication in internal/raft/raft.go: the leader's AppendEntries message, the
-- follower's handler, and the leader's handler of the answer.
use my_etcd.Base.{
  ℕ, ◌+◌, ◌<◌, ◌≤◌, ◌≡◌, ◌≢◌, inl, inr, refl, sym, ap, ◌∙◌, true, Option, none, some, List, [], ◌∷◌,
  ◌++◌, Bytes, length, take, drop, ◌==◌, bytes_eq, nat_eq, arith, Bool-cases, bytes_beq_iff,
  get_elem?-take, take-append-drop, length-take, length-drop, drop-all,
}
use native.Mathlib.Decide.{dec_lt}
use my_etcd.Base.Words.{u64, u64_mod}
use my_etcd.Types.{LogEntry, RaftMessage, msg_append_entries_response}
use my_etcd.Raft.Node.{
  Node, Effect, send, index_of, message, respond, adopt_term, notify_ready, term_at, append_message,
}
use my_etcd.Raft.Replication.{append_response, follow_commit, handle_append_entries}
use my_etcd.Raft.Frame.{notify_ready-OnlyApplied}
use my_etcd.Raft.Logs.{Accepts, Accepts-match, append_at_end}

-- The follower's log is the leader's up to the follower's nextIndex, and its term is not ahead.
pub record InStep (leader follower : Node) (peer : Bytes) : Type 0 where
  pub next_pos : 0 < index_of leader.next_index peer
  pub next_le : index_of leader.next_index peer ≤ length leader.log
  pub prefix : follower.log ≡ take (index_of leader.next_index peer) leader.log
  pub term_le : follower.current_term ≤ leader.current_term
  pub room : length leader.log < u64_mod

pub message_entries :
    (n : Node) (peer : Bytes)
    → (append_message n peer).entries ≡ drop (index_of n.next_index peer) n.log
unfolding append_message
message_entries n peer = ground (arith, drop-all (index_of n.next_index peer) n.log)

term_at-take : (i k : ℕ) (log : List LogEntry) → i < k → term_at (take k log) i ≡ term_at log i
unfolding term_at
term_at-take i k log h = rw (term_at, get_elem?-take k log i h)

module _ (l f : Node) (peer : Bytes) (h : InStep l f peer) where
  abbrev pub k : ℕ
  k = index_of l.next_index peer

  pub prev_lem : (append_message l peer).prev_log_index + 1 ≡ k
  unfolding append_message
  prev_lem = omega (arith, h.next_pos, h.next_le, h.room)

  prev_term_lem :
      0 < (append_message l peer).prev_log_index
      → (append_message l peer).prev_log_term ≡ term_at l.log (append_message l peer).prev_log_index
  unfolding append_message
  prev_term_lem pos = ground (arith, prev_lem, h.next_le)

  length-follower : length f.log ≡ k
  length-follower =
      ap (λ (xs : List LogEntry). length xs) h.prefix
      ∙ omega (arith, length-take k l.log, h.next_le)

  message_term : (append_message l peer).term ≡ l.current_term
  unfolding append_message
  message_term = refl

  pub message-Accepts : Accepts (append_message l peer) f
  message-Accepts = record {
    term_le = omega (arith, message_term, h.term_le);
    prev_match = elim (dec_lt 0 (append_message l peer).prev_log_index) [
      | yes pos ↦ inr (
        omega (arith, prev_lem, length-follower),
        ap (λ (xs : List LogEntry). term_at xs (append_message l peer).prev_log_index) h.prefix
            ∙ term_at-take (append_message l peer).prev_log_index k l.log (omega (arith, prev_lem))
            ∙ sym (prev_term_lem pos),
      )
      | no z ↦ inl (omega arith)
    ];
  }

  -- One AppendEntries message brings a follower that is in step to the leader's log: afterwards the
  -- two logs are equal.
  pub replicates : (handle_append_entries (append_message l peer) f).log ≡ l.log
  replicates =
      append_at_end (append_message l peer) f message-Accepts
        (omega (arith, prev_lem, length-follower))
        (omega (
          arith,
          length-follower,
          h.next_le,
          h.room,
          ap (λ (xs : List LogEntry). length xs) (message_entries l peer),
          length-drop k l.log,
        ))
      ∙ ap (λ (xs : List LogEntry). xs ++ (append_message l peer).entries) h.prefix
      ∙ ap (λ (xs : List LogEntry). take k l.log ++ xs) (message_entries l peer)
      ∙ take-append-drop k l.log

-- The last output, where it is a message.
abbrev pub last_sent : List Effect → Option RaftMessage
last_sent [] = none
last_sent (send to msg ∷ []) = some msg
last_sent (_ ∷ []) = none
last_sent (_ ∷ e ∷ rest) = last_sent (e ∷ rest)

last_sent-append :
    (xs : List Effect) (to : Bytes) (msg : RaftMessage)
    → last_sent (xs ++ (send to msg ∷ [])) ≡ some msg
last_sent-append [] to msg = refl
last_sent-append (x ∷ []) to msg = refl
last_sent-append (x ∷ y ∷ xs) to msg = last_sent-append (y ∷ xs) to msg

-- The answer to an accepted message: success, with the place of the last entry sent.
abbrev pub success_answer : Node → RaftMessage → RaftMessage
success_answer f msg =
    record (message msg_append_entries_response msg.term f.config.node_id msg.from_id) {
      success = true;
      match_index = u64 (msg.prev_log_index + length msg.entries);
    }

respond_sends :
    (to : Bytes) (msg : RaftMessage) (n : Node)
    → to ≢ []
    → last_sent (respond to msg n).effects ≡ some msg
unfolding respond
respond_sends to msg n named = elim (Bool-cases (to == [])) [
  | inl e ↦ absurd (named ((bytes_beq_iff to []).0 e))
  | inr e ↦ rw e (last_sent-append n.effects to msg)
]

config-notify_ready : (n : Node) → (notify_ready n).config ≡ n.config
config-notify_ready n = ap (λ (k : Node). k.config) (notify_ready-OnlyApplied n)

term-notify_ready : (n : Node) → (notify_ready n).current_term ≡ n.current_term
term-notify_ready n = ap (λ (k : Node). k.current_term) (notify_ready-OnlyApplied n)

same_identity :
    (c : ℕ) (n : Node)
    → ((follow_commit c n).config ≡ n.config) × ((follow_commit c n).current_term ≡ n.current_term)
unfolding follow_commit
same_identity c n = grind (arith, config-notify_ready, term-notify_ready)

pub answers :
    (msg : RaftMessage) (f : Node)
    → Accepts msg f
    → msg.from_id ≢ []
    → last_sent (handle_append_entries msg f).effects ≡ some (success_answer f msg)
unfolding handle_append_entries append_response adopt_term
answers msg f ok named = grind (arith, respond_sends, same_identity, Accepts-match msg f ok)
