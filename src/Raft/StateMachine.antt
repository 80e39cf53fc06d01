-- ===== src/Raft/StateMachine.antt =====
-- The replicated map of internal/raft/statemachine.go. Each method runs whole under sm.mu; a value is
-- copied on the way in and out, so lists of bytes stand for it. Snapshot and Restore stand in Snapshots.
use my_etcd.Base.{
  ℕ, none, some, List, [], ◌∷◌, Bytes, bytes_eq, ◌==◌, if◌then◌else◌, length, nat_eq,
}
use my_etcd.Base.Words.{ℤ}
use my_etcd.Base.GoMap.{GoMap, lookup, insert, delete}
use my_etcd.Base.Result.{Result, ok, err}
use my_etcd.Types.{LogEntry, command_put, command_delete, command_get, command_other}

pub data StateError : Type 0 where
  unknown_command : ℤ → StateError
  key_not_found : Bytes → StateError

pub record SimpleStateMachine : Type 0 where
  pub data_map : GoMap Bytes Bytes
  pub terms : GoMap Bytes ℕ

-- NewSimpleStateMachine
unfoldable pub new_state_machine : SimpleStateMachine
new_state_machine = record { data_map = []; terms = [] }

-- applyPut
unfoldable pub apply_put : LogEntry → SimpleStateMachine → SimpleStateMachine
apply_put entry sm = record {
  data_map = insert entry.command.key entry.command.value sm.data_map;
  terms = insert entry.command.key entry.term sm.terms;
}

-- applyDelete
unfoldable pub apply_delete : LogEntry → SimpleStateMachine → SimpleStateMachine
apply_delete entry sm = record {
  data_map = delete entry.command.key sm.data_map;
  terms = delete entry.command.key sm.terms;
}

-- Apply
unfoldable pub apply_entry :
    LogEntry → SimpleStateMachine → SimpleStateMachine × Result StateError (Unit {0})
apply_entry entry sm = if entry.index == 0 then (sm, ok tt) else (elim entry.command.kind [
  | command_put ↦ (apply_put entry sm, ok tt)
  | command_delete ↦ (apply_delete entry sm, ok tt)
  | command_get ↦ (sm, ok tt)
  | command_other n ↦ (sm, err (unknown_command n))
])

-- Get
unfoldable pub get : Bytes → SimpleStateMachine → Result StateError Bytes
get key sm = elim (lookup key sm.data_map) [
  | none ↦ err (key_not_found key)
  | some value ↦ ok value
]

-- GetTerm
unfoldable pub get_term : Bytes → SimpleStateMachine → Result StateError ℕ
get_term key sm = elim (lookup key sm.terms) [
  | none ↦ err (key_not_found key)
  | some term ↦ ok term
]

unfoldable pub keys_of : GoMap Bytes Bytes → List Bytes
keys_of [] = []
keys_of ((key, value) ∷ rest) = key ∷ keys_of rest

-- ListKeys
unfoldable pub list_keys : SimpleStateMachine → List Bytes
list_keys sm = keys_of sm.data_map

-- Size
unfoldable pub size : SimpleStateMachine → ℕ
size sm = length sm.data_map

-- Clear
unfoldable pub clear : SimpleStateMachine → SimpleStateMachine
clear sm = record { data_map = []; terms = [] }

-- A committed log, applied entry by entry; an entry that Apply refuses changes nothing.
unfoldable pub apply_all : List LogEntry → SimpleStateMachine → SimpleStateMachine
apply_all [] sm = sm
apply_all (entry ∷ rest) sm = apply_all rest (apply_entry entry sm).0
