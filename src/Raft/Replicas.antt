-- ===== src/Raft/Replicas.antt =====
-- What the replicated map of internal/raft/statemachine.go holds after a log.
use my_etcd.Base.{
  ℕ, ◌≡◌, refl, subst, split_option, Option, none, some, List, [], ◌∷◌, Bytes, bytes_eq, ◌==◌,
  if◌then◌else◌, arith, nat_eq,
}
use my_etcd.Base.GoMap.{lookup, insert, delete, lookup-insert, lookup-delete}
use my_etcd.Base.Result.{ok, err}
use my_etcd.Types.{LogEntry, command_put, command_delete, command_get, command_other}
use my_etcd.Raft.StateMachine.{
  SimpleStateMachine, apply_put, apply_delete, apply_entry, apply_all, get, get_term,
  new_state_machine, key_not_found,
}

-- What an entry says of a key: nothing, or that it is gone, or a value and its term.
abbrev pub says : Bytes → LogEntry → Option (Option (Bytes × ℕ))
says key entry = if entry.index == 0 then none else (elim entry.command.kind [
  | command_put ↦
      if entry.command.key == key then some (some (entry.command.value, entry.term)) else none
  | command_delete ↦ if entry.command.key == key then some none else none
  | command_get ↦ none
  | command_other n ↦ none
])

-- The last that a log says of a key, or `before` if it says nothing.
abbrev pub last_said : Bytes → List LogEntry → Option (Bytes × ℕ) → Option (Bytes × ℕ)
last_said key [] before = before
last_said key (entry ∷ rest) before = elim (says key entry) [
  | none ↦ last_said key rest before
  | some said ↦ last_said key rest said
]

-- The machine's two maps agree with `said` at the key.
abbrev Holds : Bytes → Option (Bytes × ℕ) → SimpleStateMachine → Type 0
Holds key said sm =
    (lookup key sm.data_map ≡ (elim said [ none ↦ none | some vt ↦ some vt.0 ]))
    × (lookup key sm.terms ≡ (elim said [ none ↦ none | some vt ↦ some vt.1 ]))

-- One entry does to the key what it says.
apply_entry-Holds :
    (key : Bytes) (entry : LogEntry) (before : Option (Bytes × ℕ)) (sm : SimpleStateMachine)
    → Holds key before sm
    → Holds key
        (elim (says key entry) [ none ↦ before | some said ↦ said ])
        (apply_entry entry sm).0
unfolding apply_entry apply_put apply_delete
apply_entry-Holds key entry before sm h =
    let k = entry.command.key in
    ground (
      arith,
      h.0,
      h.1,
      lookup-insert k key entry.command.value sm.data_map,
      lookup-insert k key entry.term sm.terms,
      lookup-delete k key sm.data_map,
      lookup-delete k key sm.terms,
    )

-- A key's entry in the two maps after a whole log.
apply_all-Holds :
    (key : Bytes) (entries : List LogEntry) (before : Option (Bytes × ℕ)) (sm : SimpleStateMachine)
    → Holds key before sm
    → Holds key (last_said key entries before) (apply_all entries sm)
unfolding apply_all
apply_all-Holds key [] before sm h = h
apply_all-Holds key (entry ∷ rest) before sm h =
    split_option
      (λ (said : Option (Bytes × ℕ)). Holds key said (apply_all rest (apply_entry entry sm).0))
      (says key entry) _ _
      (λ n. apply_all-Holds key rest before _ (
        subst
          (λ (o : Option (Option (Bytes × ℕ))).
            Holds key (elim o [ none ↦ before | some said ↦ said ]) (apply_entry entry sm).0)
          n (apply_entry-Holds key entry before sm h)))
      (λ said there. apply_all-Holds key rest said _ (
        subst
          (λ (o : Option (Option (Bytes × ℕ))).
            Holds key (elim o [ none ↦ before | some x ↦ x ]) (apply_entry entry sm).0)
          there (apply_entry-Holds key entry before sm h)))

-- After any log, from a new machine, Get returns the value of the last put of the key and GetTerm its
-- term, and both report a missing key if the log never put it or deleted it after. Entries of index
-- 0, gets and unknown commands say nothing.
pub replay_lem :
    (key : Bytes) (entries : List LogEntry)
    → (get key (apply_all entries new_state_machine) ≡ (elim (last_said key entries none) [
      | none ↦ err (key_not_found key)
      | some vt ↦ ok vt.0
    ]))
      × (get_term key (apply_all entries new_state_machine) ≡ (elim (last_said key entries none) [
        | none ↦ err (key_not_found key)
        | some vt ↦ ok vt.1
      ]))
unfolding get get_term
replay_lem key entries =
    let h =
      apply_all-Holds key entries none new_state_machine
        (unfold new_state_machine lookup in (refl, refl)) in
    ground (arith, h.0, h.1)

-- Applying an entry a second time changes nothing that the first time left, and answers the same.
pub apply_entry_twice :
    (entry : LogEntry) (sm : SimpleStateMachine) (key : Bytes)
    → (get key (apply_entry entry (apply_entry entry sm).0).0 ≡ get key (apply_entry entry sm).0)
      × ((apply_entry entry (apply_entry entry sm).0).1 ≡ (apply_entry entry sm).1)
unfolding get apply_entry apply_put apply_delete
apply_entry_twice entry sm key =
    let k = entry.command.key in
    let put_twice =
      lookup-insert k key entry.command.value (insert k entry.command.value sm.data_map) in
    let delete_twice = lookup-delete k key (delete k sm.data_map) in
    ground (
      arith,
      put_twice,
      delete_twice,
      lookup-insert k key entry.command.value sm.data_map,
      lookup-delete k key sm.data_map,
    )
