-- ===== src/Raft/Snapshots.antt =====
-- Snapshot and Restore of internal/raft/statemachine.go. encoding/json is a parameter.
use my_etcd.Base.{ℕ, Option, none, some, [], ◌∷◌, Bytes, bytes_eq}
use my_etcd.Base.GoMap.{GoMap, insert}
use my_etcd.Raft.StateMachine.{SimpleStateMachine}

-- A JSON value as encoding/json decodes it into an interface: a string, a number (a float64 that is
-- whole), or anything else.
pub data JsonValue : Type 0 where
  json_text : Bytes → JsonValue
  json_number : ℕ → JsonValue
  json_else : JsonValue

-- The JSON object of a snapshot: the fields "data" and "terms", `none` where one is no object.
pub record JsonSnapshot : Type 0 where
  pub data_map : Option (GoMap Bytes JsonValue)
  pub terms : Option (GoMap Bytes JsonValue)

-- json.Marshal and json.Unmarshal of such an object, what it makes of a []byte (a text in base64, or
-- null where it is nil) and the float64 as which a uint64 is read.
pub record Json : Type 0 where
  pub marshal : JsonSnapshot → Option Bytes
  pub unmarshal : Bytes → Option JsonSnapshot
  pub write_value : Bytes → JsonValue
  pub float : ℕ → ℕ

unfoldable pub written_values : Json → GoMap Bytes Bytes → GoMap Bytes JsonValue
written_values j [] = []
written_values j ((key, value) ∷ rest) = (key, j.write_value value) ∷ written_values j rest

unfoldable pub written_terms : Json → GoMap Bytes ℕ → GoMap Bytes JsonValue
written_terms j [] = []
written_terms j ((key, term) ∷ rest) = (key, json_number (j.float term)) ∷ written_terms j rest

-- The object that Snapshot writes, as it is decoded.
unfoldable pub to_json : Json → SimpleStateMachine → JsonSnapshot
to_json j sm = record {
  data_map = some (written_values j sm.data_map);
  terms = some (written_terms j sm.terms);
}

-- Snapshot; `none` is an error of json.Marshal.
unfoldable pub snapshot : Json → SimpleStateMachine → Option Bytes
snapshot j sm = j.marshal (to_json j sm)

-- The loops of Restore: a value of another type is left out.
unfoldable pub read_values : GoMap Bytes JsonValue → GoMap Bytes Bytes
read_values [] = []
read_values ((key, json_text text) ∷ rest) = insert key text (read_values rest)
read_values ((key, _) ∷ rest) = read_values rest

unfoldable pub read_terms : GoMap Bytes JsonValue → GoMap Bytes ℕ
read_terms [] = []
read_terms ((key, json_number n) ∷ rest) = insert key n (read_terms rest)
read_terms ((key, _) ∷ rest) = read_terms rest

-- Restore; `none` is an error of json.Unmarshal.
unfoldable pub restore : Json → Bytes → SimpleStateMachine → Option SimpleStateMachine
restore j content sm = elim (j.unmarshal content) [
  | none ↦ none
  | some object ↦ some (record {
    data_map = elim object.data_map [ none ↦ sm.data_map | some m ↦ read_values m ];
    terms = elim object.terms [ none ↦ sm.terms | some m ↦ read_terms m ];
  })
]
