-- ===== src/Raft/Commits.antt =====
-- checkCommitIndex of internal/raft/raft.go: the leader commits what a majority holds.
use my_etcd.Base.{
  ℕ, zero, suc, ◌+◌, ◌-◌, ◌/◌, ◌<◌, ◌≤◌, ◌≡◌, ◌⊎◌, inl, inr, refl, sym, ap, subst, true, false,
  List, [], ◌∷◌, Bytes, length, ltb, leb, ◌==◌, if◌then◌else◌, bytes_eq, arith, Bool-cases, leb→le,
}
use my_etcd.Base.GoMap.{GoMap}
use my_etcd.Raft.Node.{Node, index_of, notify_ready}
use my_etcd.Raft.Replication.{count_replicas, has_majority, scan_commit, check_commit_index}
use my_etcd.Raft.Frame.{notify_ready-OnlyApplied}

-- The other nodes of the cluster whose matchIndex has reached `i`.
abbrev pub holders : Bytes → GoMap Bytes ℕ → ℕ → List Bytes → List Bytes
holders self matches i [] = []
holders self matches i (p ∷ ps) =
    let rest = holders self matches i ps in
    if p == self then rest else if leb i (index_of matches p) then p ∷ rest else rest

-- The leader and those nodes are more than half of the cluster.
abbrev pub Majority : Node → ℕ → Type 0
Majority n i =
    length n.config.cluster_nodes / 2
    < 1 + length (holders n.config.node_id n.match_index i n.config.cluster_nodes)

count_replicas-holders :
    (self : Bytes) (matches : GoMap Bytes ℕ) (i : ℕ) (ps : List Bytes) (count : ℕ)
    → count_replicas self matches i ps count ≡ count + length (holders self matches i ps)
unfolding count_replicas
count_replicas-holders self matches i [] count = omega arith
count_replicas-holders self matches i (p ∷ ps) count = elim (Bool-cases (p == self)) [
  | inl own ↦ rw own (count_replicas-holders self matches i ps count)
  | inr other ↦ rw other (elim (Bool-cases (leb i (index_of matches p))) [
    | inl holds ↦ rw holds (omega (arith, count_replicas-holders self matches i ps (count + 1)))
    | inr lacks ↦ rw lacks (count_replicas-holders self matches i ps count)
  ])
]

has_majority→Majority : (n : Node) (i : ℕ) → has_majority n i ≡ true → Majority n i
unfolding has_majority
has_majority→Majority n i h =
    ground (arith, count_replicas-holders n.config.node_id n.match_index i n.config.cluster_nodes 1)

Majority→has-Majority : (n : Node) (i : ℕ) → Majority n i → has_majority n i ≡ true
unfolding has_majority
Majority→has-Majority n i h =
    ground (arith, count_replicas-holders n.config.node_id n.match_index i n.config.cluster_nodes 1)

-- What the scan of `rounds` indexes from `i` returns: `best`, or the last index with a majority.
record Scanned (n : Node) (rounds i best r : ℕ) : Type 0 where
  found : (r ≡ best) ⊎ ((i ≤ r) × (r < i + rounds) × (has_majority n r ≡ true))
  last : (j : ℕ) → i ≤ j → j < i + rounds → has_majority n j ≡ true → j ≤ r

module _ {n : Node} {rounds i best r : ℕ} where
  Scanned-yes :
      has_majority n i ≡ true → Scanned n rounds (i + 1) i r → Scanned n (suc rounds) i best r
  Scanned-yes m s = record {
    found = elim s.found [
      | inl e ↦ inr (omega (arith, e), omega (arith, e), rw e m)
      | inr f ↦ inr (omega (arith, f.0), omega (arith, f.1), f.2)
    ];
    last = λ j lo hi mj. elim (Bool-cases (leb (i + 1) j)) [
      | inl later ↦ s.last j (leb→le (i + 1) j later) (omega arith) mj
      | inr first ↦ elim s.found [ inl e ↦ ground (arith, e) | inr f ↦ ground (arith, f.0) ]
    ];
  }

  Scanned-no :
      has_majority n i ≡ false → Scanned n rounds (i + 1) best r → Scanned n (suc rounds) i best r
  Scanned-no m s = record {
    found = elim s.found [
      | inl e ↦ inl e
      | inr f ↦ inr (omega (arith, f.0), omega (arith, f.1), f.2)
    ];
    last = λ j lo hi mj. elim (Bool-cases (leb (i + 1) j)) [
      | inl later ↦ s.last j (leb→le (i + 1) j later) (omega arith) mj
      | inr first ↦ absurd (not_first j lo first mj)
    ];
  }
    where
      not_first : (j : ℕ) → i ≤ j → leb (i + 1) j ≡ false → has_majority n j ≡ true → ⊥
      not_first j lo first mj =
          let e : j ≡ i = ground arith in ground (arith, subst (λ x. has_majority n x ≡ true) e mj)

scan_commit-Scanned :
    (n : Node) (rounds i best : ℕ)
    → best < i
    → Scanned n rounds i best (scan_commit n rounds i best)
unfolding scan_commit
scan_commit-Scanned n zero i best h = record {
  found = inl refl;
  last = λ j lo hi m. absurd (omega arith);
}
scan_commit-Scanned n (suc rounds) i best h = elim (Bool-cases (has_majority n i)) [
  | inl m ↦ rw m (Scanned-yes m (scan_commit-Scanned n rounds (i + 1) i (omega arith)))
  | inr m ↦ rw m (Scanned-no m (scan_commit-Scanned n rounds (i + 1) best (omega arith)))
]

commit-notify_ready : (n : Node) → (notify_ready n).commit_index ≡ n.commit_index
commit-notify_ready n = ap (λ (k : Node). k.commit_index) (notify_ready-OnlyApplied n)

-- What the leader commits.
pub record Committed (n : Node) (c : ℕ) : Type 0 where
  pub grows : n.commit_index ≤ c
  pub held : (c ≡ n.commit_index) ⊎ ((c < length n.log) × Majority n c)
  pub latest : (j : ℕ) → n.commit_index < j → j < length n.log → Majority n j → j ≤ c

Scanned-Committed :
    (n : Node) (r : ℕ)
    → n.commit_index < length n.log
    → Scanned n (length n.log - (n.commit_index + 1)) (n.commit_index + 1) n.commit_index r
    → Committed n r
Scanned-Committed n r inside s = record {
  grows = elim s.found [ inl e ↦ omega (arith, e) | inr f ↦ omega (arith, f.0) ];
  held = elim s.found [
    | inl e ↦ inl e
    | inr f ↦ inr (omega (arith, f.1), has_majority→Majority n r f.2)
  ];
  latest = λ j lo hi m. s.last j (omega arith) (omega arith) (Majority→has-Majority n j m);
}

-- The result of the scan.
abbrev best_of : Node → ℕ
best_of n = scan_commit n (length n.log - (n.commit_index + 1)) (n.commit_index + 1) n.commit_index

commit-check_commit_index :
    (n : Node) → n.commit_index ≤ best_of n → (check_commit_index n).commit_index ≡ best_of n
unfolding check_commit_index
commit-check_commit_index n grows = elim (Bool-cases (ltb n.commit_index (best_of n))) [
  | inl more ↦ rw more (commit-notify_ready _)
  | inr same ↦ rw same (ground (arith, grows))
]

-- checkCommitIndex takes commitIndex to the last place of the log that a majority of the cluster
-- holds, by matchIndex and counting the leader itself: it does not fall, it stays or is such a place
-- within the log, and no place after it has a majority. commitIndex is within the log before.
pub check_commit_index-Committed :
    (n : Node) → n.commit_index < length n.log → Committed n (check_commit_index n).commit_index
check_commit_index-Committed n inside =
    let all : Committed n (best_of n) = Scanned-Committed n (best_of n) inside (
      scan_commit-Scanned n (length n.log - (n.commit_index + 1)) (n.commit_index + 1)
        n.commit_index (omega arith)) in
    subst (λ c. Committed n c) (sym (commit-check_commit_index n all.grows)) all
