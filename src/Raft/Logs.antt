-- ===== src/Raft/Logs.antt =====
-- What handleAppendEntries of internal/raft/raft.go does to the log.
use my_etcd.Base.{
  ℕ, suc, ◌+◌, ◌<◌, ◌≤◌, ◌≡◌, ◌≢◌, ◌⊎◌, refl, sym, ap, subst, ◌∙◌, Bool, true, false, some, List,
  [], ◌∷◌, ◌++◌, Bytes, length, take, get_elem?, bytes_eq, nat_eq, arith, eq_self, append-nil,
  get_elem?-none, get_elem?-some,
}
use my_etcd.Base.Words.{u64, u64_mod}
use my_etcd.Types.{LogEntry, RaftMessage}
use my_etcd.Raft.Node.{Node, term_at, notify_ready, adopt_term}
use my_etcd.Raft.Replication.{
  append_response, prev_mismatch, conflicts, cut_conflict, store_entries, follow_commit,
  handle_append_entries,
}
use my_etcd.Raft.Frame.{respond-OnlyEffects, notify_ready-OnlyApplied}

-- The message passes the two tests of the handler: its term is not behind, and the log holds the
-- entry before the new ones, with the term that the message says (index 0 is not looked at).
pub record Accepts (msg : RaftMessage) (n : Node) : Type 0 where
  pub term_le : n.current_term ≤ msg.term
  pub prev_match :
      (msg.prev_log_index ≡ 0)
      ⊎ ((msg.prev_log_index < length n.log)
          × (term_at n.log msg.prev_log_index ≡ msg.prev_log_term))

log-respond :
    (to : Bytes) (success : Bool) (match : ℕ) (n : Node)
    → (append_response to success match n).log ≡ n.log
unfolding append_response
log-respond to success match n = ap (λ (k : Node). k.log) (respond-OnlyEffects to _ n)

log-notify_ready : (n : Node) → (notify_ready n).log ≡ n.log
log-notify_ready n = ap (λ (k : Node). k.log) (notify_ready-OnlyApplied n)

log-follow_commit : (c : ℕ) (n : Node) → (follow_commit c n).log ≡ n.log
unfolding follow_commit
log-follow_commit c n = grind (arith, log-notify_ready)

pub Accepts-match : (msg : RaftMessage) (n : Node) → Accepts msg n → prev_mismatch msg n.log ≡ false
unfolding prev_mismatch term_at
Accepts-match msg n h = ground (arith, get_elem?-some n.log msg.prev_log_index)

-- An accepted message turns the log into what storing its entries gives.
log-accepted :
    (msg : RaftMessage) (n : Node)
    → Accepts msg n
    → (handle_append_entries msg n).log ≡ store_entries msg.prev_log_index msg.entries n.log
unfolding handle_append_entries adopt_term
log-accepted msg n h = grind (arith, log-respond, log-follow_commit, Accepts-match msg n h)

-- Entries whose places lie past the end of the log conflict with nothing.
cut_conflict-past_end :
    (prev i : ℕ) (entries log : List LogEntry)
    → length log ≤ prev + 1 + i
    → prev + 1 + i + length entries < u64_mod
    → cut_conflict prev i entries log ≡ log
unfolding cut_conflict conflicts
cut_conflict-past_end prev i [] log h k = refl
cut_conflict-past_end prev i (entry ∷ rest) log h k =
    let e : u64 (prev + 1 + i) ≡ prev + 1 + i = omega arith in
    rw (e, conflicts, get_elem?-none log (prev + 1 + i) h)
      (cut_conflict-past_end prev (i + 1) rest log (omega arith) (omega arith))

-- Entries that the log holds already, at their places and with their terms.
abbrev Held : ℕ → List LogEntry → List LogEntry → Type 0
Held i [] log = Unit
Held i (entry ∷ rest) log =
    ((old : LogEntry) × (get_elem? log i ≡ some old) × (old.term ≡ entry.term))
    × Held (i + 1) rest log

cut_conflict-Held :
    (prev i : ℕ) (entries log : List LogEntry)
    → prev + 1 + i + length entries < u64_mod
    → Held (prev + 1 + i) entries log
    → cut_conflict prev i entries log ≡ log
unfolding cut_conflict conflicts
cut_conflict-Held prev i [] log k h = refl
cut_conflict-Held prev i (entry ∷ rest) log k h =
    let e : u64 (prev + 1 + i) ≡ prev + 1 + i = omega arith in
    let s : prev + 1 + i + 1 ≡ prev + 1 + (i + 1) = omega arith in
    rw (e, conflicts, h.0.1, h.0.2, eq_self entry.term)
      (cut_conflict-Held prev (i + 1) rest log (omega arith) (subst (λ j. Held j rest log) s h.1))

store_entries_lem :
    (prev : ℕ) (entries log : List LogEntry)
    → store_entries prev entries log ≡ cut_conflict prev 0 entries log ++ entries
unfolding store_entries cut_conflict
store_entries_lem prev [] log = sym (append-nil log)
store_entries_lem prev (entry ∷ rest) log = refl

store_entries_kept :
    (prev : ℕ) (entries log : List LogEntry)
    → cut_conflict prev 0 entries log ≡ log
    → store_entries prev entries log ≡ log ++ entries
store_entries_kept prev entries log h = rw (store_entries_lem, h)

-- An accepted message whose previous entry is the last of the node's log appends its entries: the
-- log becomes the old log followed by all of them. The indexes stay below 2^64.
pub append_at_end :
    (msg : RaftMessage) (n : Node)
    → Accepts msg n
    → length n.log ≡ msg.prev_log_index + 1
    → length n.log + length msg.entries < u64_mod
    → (handle_append_entries msg n).log ≡ n.log ++ msg.entries
append_at_end msg n ok end room =
    log-accepted msg n ok
    ∙ store_entries_kept _ _ _
        (cut_conflict-past_end msg.prev_log_index 0 msg.entries n.log (omega arith) (omega arith))

-- Every entry of the message stands in the log already, right after the previous entry.
abbrev pub AlreadyHeld : RaftMessage → Node → Type 0
AlreadyHeld msg n = Held (msg.prev_log_index + 1) msg.entries n.log

-- An accepted message whose entries the log holds already is stored a second time: the log becomes
-- the old log followed by the entries again. The indexes stay below 2^64.
pub append_held_again :
    (msg : RaftMessage) (n : Node)
    → Accepts msg n
    → AlreadyHeld msg n
    → msg.prev_log_index + 1 + length msg.entries < u64_mod
    → (handle_append_entries msg n).log ≡ n.log ++ msg.entries
append_held_again msg n ok held room =
    let z : msg.prev_log_index + 1 ≡ msg.prev_log_index + 1 + 0 = omega arith in
    log-accepted msg n ok
    ∙ store_entries_kept _ _ _ (
        cut_conflict-Held msg.prev_log_index 0 msg.entries n.log (omega arith)
          (subst (λ j. Held j msg.entries n.log) z held))

conflict_test :
    (log : List LogEntry) (i : ℕ) (bad old : LogEntry)
    → get_elem? log i ≡ some old
    → old.term ≢ bad.term
    → conflicts log i bad ≡ true
unfolding conflicts
conflict_test log i bad old at ne = ground arith

cut_conflict-first :
    (prev i : ℕ) (held : List LogEntry) (bad old : LogEntry) (rest log : List LogEntry)
    → prev + 1 + i + length held < u64_mod
    → Held (prev + 1 + i) held log
    → get_elem? log (prev + 1 + i + length held) ≡ some old
    → old.term ≢ bad.term
    → cut_conflict prev i (held ++ (bad ∷ rest)) log ≡ take (prev + 1 + i + length held) log
unfolding cut_conflict conflicts
cut_conflict-first prev i [] bad old rest log k h at ne =
    let e : u64 (prev + 1 + i) ≡ prev + 1 + i = omega arith in
    let z : prev + 1 + i + 0 ≡ prev + 1 + i = omega arith in
    let c : conflicts log (prev + 1 + i) bad ≡ true =
      conflict_test log (prev + 1 + i) bad old (subst (λ j. get_elem? log j ≡ some old) z at) ne in
    rw (e, z, c)
cut_conflict-first prev i (entry ∷ held) bad old rest log k h at ne =
    let e : u64 (prev + 1 + i) ≡ prev + 1 + i = omega arith in
    let s : prev + 1 + i + 1 ≡ prev + 1 + (i + 1) = omega arith in
    let t : prev + 1 + (i + 1) + length held ≡ prev + 1 + i + suc (length held) = omega arith in
    rw (e, conflicts, h.0.1, h.0.2, eq_self entry.term, ← t)
      (cut_conflict-first prev (i + 1) held bad old rest log (omega arith)
        (subst (λ j. Held j held log) s h.1) (subst (λ j. get_elem? log j ≡ some old) (sym t) at)
        ne)

-- The first conflict cuts the log: where an accepted message's entries are `held`, which the log has
-- in their places, then one whose place in the log has another term, then any others, the log
-- becomes its part before that place, followed by all entries of the message, `held` ones included.
-- The indexes stay below 2^64.
pub append_conflict :
    (msg : RaftMessage) (n : Node) (held : List LogEntry) (bad old : LogEntry)
    (rest : List LogEntry)
    → Accepts msg n
    → msg.entries ≡ held ++ (bad ∷ rest)
    → Held (msg.prev_log_index + 1) held n.log
    → get_elem? n.log (msg.prev_log_index + 1 + length held) ≡ some old
    → old.term ≢ bad.term
    → msg.prev_log_index + 1 + length held < u64_mod
    → (handle_append_entries msg n).log
      ≡ take (msg.prev_log_index + 1 + length held) n.log ++ (held ++ (bad ∷ rest))
append_conflict msg n held bad old rest ok e h at ne room =
    let z : msg.prev_log_index + 1 ≡ msg.prev_log_index + 1 + 0 = omega arith in
    log-accepted msg n ok
    ∙ ap (λ (es : List LogEntry). store_entries msg.prev_log_index es n.log) e
    ∙ store_entries_lem msg.prev_log_index (held ++ (bad ∷ rest)) n.log
    ∙ ap (λ (xs : List LogEntry). xs ++ (held ++ (bad ∷ rest)))
        (subst
          (λ (j : ℕ).
            Held j held n.log
            → get_elem? n.log (j + length held) ≡ some old
            → j + length held < u64_mod
            → cut_conflict msg.prev_log_index 0 (held ++ (bad ∷ rest)) n.log
              ≡ take (j + length held) n.log)
          (sym z)
          (λ hh aa rr. cut_conflict-first msg.prev_log_index 0 held bad old rest n.log rr hh aa ne)
          h at room)
