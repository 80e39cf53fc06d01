-- ===== src/Raft/StateTests.antt =====
-- The theorems on internal/raft/statemachine.go at work on a short log.
use my_etcd.Base.{◌≡◌, refl, sym, ap, some, [], ◌∷◌, Bytes, codes, bytes_beq, bytes_eq, arith}
use my_etcd.Base.GoMap.{lookup}
use my_etcd.Base.Result.{ok}
use my_etcd.Types.{LogEntry, command_delete}
use my_etcd.Raft.Node.{empty_command}
use my_etcd.Raft.StateMachine.{SimpleStateMachine, apply_all, get, get_term, new_state_machine}
use my_etcd.Raft.Snapshots.{
  Json, JsonSnapshot, json_text, json_number, to_json, written_values, written_terms, snapshot,
  restore,
}
use my_etcd.Raft.Copies.{IsJson, mapped, restore-snapshot}
use my_etcd.Raft.Replicas.{replay_lem}

abbrev put_entry : LogEntry
put_entry = record {
  term = 3;
  index = 1;
  command = record empty_command { key = codes "k"; value = codes "v" };
}

abbrev delete_entry : LogEntry
delete_entry = record {
  term = 3;
  index = 2;
  command = record empty_command { kind = command_delete; key = codes "j" };
}

replay_lem_example :
    (get (codes "k") (apply_all (put_entry ∷ delete_entry ∷ []) new_state_machine) ≡ ok (codes "v"))
    × (get_term (codes "k") (apply_all (put_entry ∷ delete_entry ∷ []) new_state_machine) ≡ ok 3)
unfolding bytes_beq
replay_lem_example = replay_lem (codes "k") (put_entry ∷ delete_entry ∷ [])

-- A machine with one key, and a JSON that knows its snapshot; "dg==" is the base64 text of "v".
abbrev stored : SimpleStateMachine
stored = record { data_map = (codes "k", codes "v") ∷ []; terms = (codes "k", 3) ∷ [] }

abbrev encode_value : Bytes → Bytes
encode_value v = codes "dg=="

abbrev known : JsonSnapshot
known = record {
  data_map = some ((codes "k", json_text (codes "dg==")) ∷ []);
  terms = some ((codes "k", json_number 3) ∷ []);
}

abbrev json : Json
json = record {
  marshal = λ object. some (1 ∷ []);
  unmarshal = λ content. some known;
  write_value = λ v. json_text (encode_value v);
  float = λ n. n;
}

abbrev IsKnown : JsonSnapshot → Type 0
IsKnown object = object ≡ known

json-IsJson : IsJson json encode_value IsKnown
json-IsJson = record {
  round_trip = λ object content k e. ap (λ (x : JsonSnapshot). some x) (sym k);
  as_text = λ value n. refl;
  exact = λ n h. refl;
}

stored_kept : to_json json stored ≡ known
unfolding to_json written_values written_terms
stored_kept = refl

stored_written : snapshot json stored ≡ some (1 ∷ [])
unfolding snapshot
stored_written = refl

restore-snapshot_example :
    (copy : SimpleStateMachine) × (restore json (1 ∷ []) new_state_machine ≡ some copy)
    × ((key : Bytes) → lookup key copy.data_map ≡ mapped encode_value (lookup key stored.data_map))
    × ((key : Bytes) → lookup key copy.terms ≡ lookup key stored.terms)
restore-snapshot_example =
    restore-snapshot json encode_value IsKnown stored new_state_machine (1 ∷ []) json-IsJson
      stored_kept stored_written ((λ p. cc), tt) (omega arith, tt)
