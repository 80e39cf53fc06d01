-- ===== src/Storage/Data.antt =====
-- The stored data of internal/storage/engine.go: key values, transactions, and the operations on the
-- map that need neither the log nor the leases. The types are those of internal/types/types.go.
use my_etcd.Base.{
  Bool, false, ◌&&◌, Option, none, some, List, [], ◌∷◌, Bytes, bytes_eq, ◌==◌, if◌then◌else◌,
}
use my_etcd.Base.Words.{ℤ, pos, ◌+ℤ◌, i64, int_eq, ltb_ℤ}
use my_etcd.Base.GoMap.{GoMap, lookup, insert, delete}
use my_etcd.Base.Result.{Result, ok, err}
use my_etcd.Types.{Command, CommandType, command_put, command_delete, command_get, command_other}
use my_etcd.Lease.Manager.{LeaseError, after, seconds}

pub data EngineError : Type 0 where
  engine_closed key_not_found key_expired txn_not_found cas_failed invalid_txn : EngineError
  append_failed sync_failed read_failed ttl_not_positive watch_not_found : EngineError
  unknown_command : ℤ → EngineError
  lease_error : LeaseError → EngineError

-- Times are nanoseconds, the zero time is 0; version, ttl and lease_id are int64.
pub record KeyValue : Type 0 where
  pub key : Bytes
  pub value : Bytes
  pub created : ℤ
  pub modified : ℤ
  pub version : ℤ
  pub ttl : ℤ
  pub expires : ℤ
  pub lease_id : ℤ

pub data TxnStatus : Type 0 where
  txn_pending txn_committed txn_aborted : TxnStatus

pub record Operation : Type 0 where
  pub kind : CommandType
  pub key : Bytes
  pub value : Bytes
  pub prev : Bytes

pub record Transaction : Type 0 where
  pub id : Bytes
  pub operations : List Operation
  pub timestamp : ℤ
  pub status : TxnStatus

abbrev pub Data : Type 0
Data = GoMap Bytes KeyValue

-- IsExpired, at the clock's reading `now`.
unfoldable pub is_expired : ℤ → KeyValue → Bool
is_expired now kv = if kv.ttl == pos 0 then false else after now kv.expires

-- The expiry time of a write: the zero time without a TTL.
unfoldable pub expiry : ℤ → ℤ → ℤ
expiry now ttl = if ltb_ℤ (pos 0) ttl then now +ℤ seconds ttl else pos 0

-- What a write with a TTL stores over what is there: Put, putUnsafe and BatchPut.
unfoldable pub written : ℤ → Bytes → Bytes → ℤ → Option KeyValue → KeyValue
written now key value ttl found = elim found [
  | none ↦ record {
    key = key;
    value = value;
    created = now;
    modified = now;
    version = pos 1;
    ttl = ttl;
    expires = expiry now ttl;
    lease_id = pos 0;
  }
  | some kv ↦ record kv {
    value = value;
    modified = now;
    version = i64 (kv.version +ℤ pos 1);
    ttl = ttl;
    expires = expiry now ttl;
  }
]

-- What applyPut stores: the TTL and the expiry of an existing key stay.
unfoldable pub applied_value : ℤ → Bytes → Bytes → Option KeyValue → KeyValue
applied_value now key value found = elim found [
  | none ↦ record {
    key = key;
    value = value;
    created = now;
    modified = now;
    version = pos 1;
    ttl = pos 0;
    expires = pos 0;
    lease_id = pos 0;
  }
  | some kv ↦ record kv { value = value; modified = now; version = i64 (kv.version +ℤ pos 1) }
]

-- applyPut
unfoldable pub apply_put : ℤ → Bytes → Bytes → Data → Data
apply_put now key value data_map =
    insert key (applied_value now key value (lookup key data_map)) data_map

-- applyDelete
unfoldable pub apply_delete : Bytes → Data → Data
apply_delete key data_map = delete key data_map

-- applyCommand; an error leaves the data as it is.
unfoldable pub apply_command : ℤ → Command → Data → Data × Result EngineError (Unit {0})
apply_command now cmd data_map = elim cmd.kind [
  | command_put ↦ (apply_put now cmd.key cmd.value data_map, ok tt)
  | command_delete ↦ (apply_delete cmd.key data_map, ok tt)
  | command_get ↦ (data_map, ok tt)
  | command_other n ↦ (data_map, err (unknown_command n))
]

-- The loop of recoverFromWAL: an error is reported and the next record applied.
unfoldable pub replay : ℤ → List Command → Data → Data
replay now [] data_map = data_map
replay now (cmd ∷ cmds) data_map = replay now cmds (apply_command now cmd data_map).0

-- The loop of CommitTransaction: other kinds of operation are skipped.
unfoldable pub apply_operations : ℤ → List Operation → Data → Data
apply_operations now [] data_map = data_map
apply_operations now (op ∷ ops) data_map = apply_operations now ops (elim op.kind [
  | command_put ↦ apply_put now op.key op.value data_map
  | command_delete ↦ apply_delete op.key data_map
  | command_get ↦ data_map
  | command_other n ↦ data_map
])

unfoldable pub live_keys : ℤ → Data → List Bytes
live_keys now [] = []
live_keys now ((key, kv) ∷ rest) =
    let more = live_keys now rest in if is_expired now kv then more else key ∷ more

-- The loop of cleanupExpiredKeys, over the entries that the map had at its start.
unfoldable pub sweep : ℤ → Data → Data → Data
sweep now [] data_map = data_map
sweep now ((key, kv) ∷ rest) data_map =
    sweep now rest
      (if ltb_ℤ (pos 0) kv.ttl && after now kv.expires then delete key data_map else data_map)
