-- ===== src/Raft/Applied.antt =====
-- notifyReady of internal/raft/raft.go: which entries are put on applyCh, and how often.
use my_etcd.Base.{
  ℕ, zero, suc, ◌+◌, ◌-◌, ◌<◌, ◌≤◌, ◌≡◌, refl, sym, ap, ◌∙◌, Bool, true, false, Option, none, some,
  List, [], ◌∷◌, ◌++◌, take, drop, get_elem?, ltb, ◌==◌, if◌then◌else◌, nat_eq, arith, append_assoc,
  append-nil,
}
use my_etcd.Base.Words.{u64, u64_mod}
use my_etcd.Types.{LogEntry}
use my_etcd.Raft.Node.{Node, Effect, apply, ready, emit, apply_next, notify_loop, notify_ready}

-- The entries that the outputs put on applyCh, in order.
abbrev pub applied : List Effect → List LogEntry
applied [] = []
applied (apply entry ∷ rest) = entry ∷ applied rest
applied (_ ∷ rest) = applied rest

-- Entries that are not placeholders (index 0).
abbrev pub real : List LogEntry → List LogEntry
real [] = []
real (entry ∷ rest) = if entry.index == 0 then real rest else entry ∷ real rest

applied-append : (xs ys : List Effect) → applied (xs ++ ys) ≡ applied xs ++ applied ys
applied-append [] ys = refl
applied-append (apply entry ∷ xs) ys = ap (λ t. entry ∷ t) (applied-append xs ys)
applied-append (_ ∷ xs) ys = applied-append xs ys

-- The log from the place `i` on, by its first entry.
window :
    (i k : ℕ) (log : List LogEntry)
    → take (suc k) (drop i log)
      ≡ (elim (get_elem? log i) [ none ↦ [] | some e ↦ e ∷ take k (drop (suc i) log) ])
window zero k [] = refl
window zero k (x ∷ log) = refl
window (suc i) k [] = refl
window (suc i) k (x ∷ log) = window i k log

no_window :
    (i k : ℕ) (log : List LogEntry) → get_elem? log i ≡ none → take k (drop (suc i) log) ≡ []
no_window i zero log h = refl
no_window i (suc k) [] h = refl
no_window zero (suc k) (x ∷ log) h = cc
no_window (suc i) (suc k) (x ∷ log) h = no_window i (suc k) log h

-- The body of the loop at the place `i`, with what the log holds there.
abbrev next_on : Option LogEntry → ℕ → Node → Node
next_on found i n =
    let m = record n { last_applied = i } in
    elim found [ none ↦ m | some entry ↦ if entry.index == 0 then m else emit (apply entry) m ]

abbrev next_at : ℕ → Node → Node
next_at i n = next_on (get_elem? n.log i) i n

apply_next-next_at :
    (n : Node) → n.last_applied + 1 < u64_mod → apply_next n ≡ next_at (n.last_applied + 1) n
unfolding apply_next
apply_next-next_at n room =
    let e : u64 (n.last_applied + 1) ≡ n.last_applied + 1 = omega arith in
    ap (λ (i : ℕ). next_at i n) e

-- One round: lastApplied goes to the next place, and the entry there goes out unless it is a
-- placeholder.
record Round (i k : ℕ) (n m : Node) : Type 0 where
  place : m.last_applied ≡ i
  same_commit : m.commit_index ≡ n.commit_index
  same_log : m.log ≡ n.log
  out :
      applied n.effects ++ real (take (suc k) (drop i n.log))
      ≡ applied m.effects ++ real (take k (drop (suc i) n.log))

next_at-Round : (i k : ℕ) (n : Node) → Round i k n (next_at i n)
next_at-Round i k n = on (get_elem? n.log i) refl
  where
    entry_out :
        (entry : LogEntry) (b : Bool)
        → (entry.index == 0) ≡ b
        → get_elem? n.log i ≡ some entry
        → Round i k n (
            if b
            then record n { last_applied = i }
            else emit (apply entry) (record n { last_applied = i }))
    entry_out entry true z there = record {
      place = refl;
      same_commit = refl;
      same_log = refl;
      out = rw (window i k n.log, there, z);
    }
    entry_out entry false z there = record {
      place = refl;
      same_commit = refl;
      same_log = refl;
      out =
          rw (window i k n.log, there, z, applied-append)
            (sym (append_assoc (applied n.effects) (entry ∷ []) _));
    }

    on : (found : Option LogEntry) → get_elem? n.log i ≡ found → Round i k n (next_on found i n)
    on none gone = record {
      place = refl;
      same_commit = refl;
      same_log = refl;
      out = rw (window i k n.log, gone, no_window i k n.log gone);
    }
    on (some entry) there = entry_out entry (entry.index == 0) refl there

notify_loop_lem :
    (fuel : ℕ) (n : Node)
    → n.last_applied + fuel ≡ n.commit_index
    → n.commit_index < u64_mod
    → ((notify_loop fuel n).last_applied ≡ n.commit_index)
      × (applied (notify_loop fuel n).effects
          ≡ applied n.effects ++ real (take fuel (drop (n.last_applied + 1) n.log)))
unfolding notify_loop
notify_loop_lem zero n h room = (omega arith, sym (append-nil _))
notify_loop_lem (suc fuel) n h room =
    let t : ltb n.last_applied n.commit_index ≡ true = ground arith in
    let r : Round (n.last_applied + 1) fuel n (apply_next n) =
      rw (apply_next-next_at n (omega arith)) (next_at-Round (n.last_applied + 1) fuel n) in
    let s : suc (n.last_applied + 1) ≡ (apply_next n).last_applied + 1 = omega (arith, r.place) in
    let ih =
      notify_loop_lem fuel (apply_next n) (omega (arith, r.place, r.same_commit, h))
        (omega (arith, r.same_commit, room)) in
    rw t (
      ih.0 ∙ r.same_commit,
      ih.1
          ∙ ap
              (λ (l : List LogEntry).
                applied (apply_next n).effects
                ++ real (take fuel (drop ((apply_next n).last_applied + 1) l)))
              r.same_log
          ∙ ap (λ (j : ℕ). applied (apply_next n).effects ++ real (take fuel (drop j n.log)))
              (sym s)
          ∙ sym r.out,
    )

-- notifyReady applies each committed entry once and in order: lastApplied ends at commitIndex, and
-- what goes to applyCh is exactly the log from lastApplied + 1 to commitIndex without placeholders.
-- lastApplied is not past commitIndex before.
pub notify_ready_applies :
    (n : Node)
    → n.last_applied ≤ n.commit_index
    → n.commit_index < u64_mod
    → ((notify_ready n).last_applied ≡ n.commit_index)
      × (applied (notify_ready n).effects
          ≡ applied n.effects
            ++ real (take (n.commit_index - n.last_applied) (drop (n.last_applied + 1) n.log)))
unfolding notify_ready
notify_ready_applies n h room =
    let l = notify_loop_lem (n.commit_index - n.last_applied) n (omega arith) room in
    (
      l.0,
      applied-append (notify_loop (n.commit_index - n.last_applied) n).effects (ready ∷ [])
          ∙ append-nil _
          ∙ l.1,
    )
