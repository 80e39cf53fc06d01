-- ===== src/Storage/Queries.antt =====
-- Transactions, queries, batches and leases of internal/storage/engine.go.
use my_etcd.Base.{
  ℕ, ◌+◌, Bool, true, false, not, ◌&&◌, Option, none, some, List, [], ◌∷◌, ◌++◌, Bytes, bytes_eq,
  nat_eq, ◌==◌, if◌then◌else◌, length, bytes_ltb, take,
}
use my_etcd.Base.Words.{ℤ, pos, negsuc, int_eq, ltb_ℤ}
use my_etcd.Base.GoMap.{lookup, insert, delete}
use my_etcd.Base.Result.{ok, err}
use my_etcd.Lease.Manager.{LeaseError, LeaseManager, LeaseInfo}
use my_etcd.Lease.Manager
use my_etcd.Watch.Watcher.{Watcher, watch_put, watch_delete}
use my_etcd.Watch.Watcher
use my_etcd.Storage.Data.{
  key_not_found, txn_not_found, invalid_txn, ttl_not_positive, lease_error, watch_not_found,
  KeyValue, Operation, Transaction, txn_pending, TxnStatus, Data, is_expired, written, replay,
  apply_operations, live_keys, sweep,
}
use my_etcd.Storage.Engine.{
  WalWrapper, Engine, Exec, return, modify, leases, when_open, announce, put_command,
  delete_command, old_value, set_lease, append_command, sync_log, ◌>>◌,
}

abbrev pub is_pending : TxnStatus → Bool
is_pending txn_pending = true
is_pending _ = false

module _ {W : Type 0} where
  -- BeginTransaction; `id` is what generateTxnID makes of the clock.
  unfoldable pub begin_transaction : ℤ → Bytes → Exec W Transaction
  begin_transaction now id = when_open λ e.
      let txn : Transaction = record {
        id = id;
        operations = [];
        timestamp = now;
        status = txn_pending;
      } in
      (record e { transactions = insert id txn e.transactions }, ok txn)

  -- CommitTransaction: the operations are applied in order, in memory only.
  unfoldable pub commit_transaction : ℤ → Bytes → Exec W (Unit {0})
  commit_transaction now id = when_open λ e. elim (lookup id e.transactions) [
    | none ↦ (e, err txn_not_found)
    | some txn ↦
        if is_pending txn.status
        then (
          record e {
            data_map = apply_operations now txn.operations e.data_map;
            transactions = delete id e.transactions;
          },
          ok tt,
        )
        else (e, err invalid_txn)
  ]

  -- RollbackTransaction
  unfoldable pub rollback_transaction : Bytes → Exec W (Unit {0})
  rollback_transaction id = when_open λ e. elim (lookup id e.transactions) [
    | none ↦ (e, err txn_not_found)
    | some txn ↦ (record e { transactions = delete id e.transactions }, ok tt)
  ]

  -- AddOperation
  unfoldable pub add_operation : Bytes → Operation → Exec W (Unit {0})
  add_operation id op = when_open λ e. elim (lookup id e.transactions) [
    | none ↦ (e, err txn_not_found)
    | some txn ↦
        if is_pending txn.status
        then (
          record e {
            transactions =
                insert id (record txn { operations = txn.operations ++ (op ∷ []) }) e.transactions;
          },
          ok tt,
        )
        else (e, err invalid_txn)
  ]

  -- ListKeys
  unfoldable pub list_keys : ℤ → Engine W → List Bytes
  list_keys now e = if e.closed then [] else live_keys now e.data_map

  -- Size
  unfoldable pub size : ℤ → Engine W → ℕ
  size now e = if e.closed then 0 else length (live_keys now e.data_map)

  -- cleanupExpiredKeys, one tick.
  unfoldable pub cleanup_expired_keys : ℤ → Engine W → Engine W
  cleanup_expired_keys now e =
      if e.closed then e else record e { data_map = sweep now e.data_map e.data_map }

  -- The loop of leaseCleanupRoutine.
  unfoldable pub delete_expired : (ℕ → ℤ) → List Bytes → Engine W → Engine W
  delete_expired clock [] e = e
  delete_expired clock (key ∷ keys) e =
      delete_expired (λ i. clock (i + 1)) keys
        (elim (lookup key e.data_map) [
          | none ↦ e
          | some kv ↦
              announce watch_delete (clock 0) key [] kv.value (pos 0)
                (record e { data_map = delete key e.data_map })
        ])

  -- leaseCleanupRoutine, one tick.
  unfoldable pub lease_cleanup : (ℕ → ℤ) → Engine W → Engine W
  lease_cleanup clock e =
      let (m, keys) = Manager.get_expired_keys (clock 0) e.lease_manager in
      delete_expired (λ i. clock (i + 1)) keys (record e { lease_manager = m })

  -- GrantLease
  unfoldable pub grant_lease : ℤ → ℤ → Exec W ℤ
  grant_lease now ttl e =
      if ltb_ℤ (pos 0) ttl then leases (Manager.grant now ttl) e else (e, err ttl_not_positive)

  -- KeepAliveLease
  unfoldable pub keep_alive_lease : ℤ → ℤ → Exec W ℤ
  keep_alive_lease now id = leases (Manager.keep_alive now id)

  -- The loop of RevokeLease: the lease's keys whose stored value names it.
  unfoldable pub delete_leased : (ℕ → ℤ) → ℤ → List Bytes → Engine W → Engine W
  delete_leased clock id [] e = e
  delete_leased clock id (key ∷ keys) e =
      delete_leased (λ i. clock (i + 1)) id keys
        (elim (lookup key e.data_map) [
          | none ↦ e
          | some kv ↦
              if kv.lease_id == id
              then announce watch_delete (clock 0) key [] kv.value (pos 0)
                  (record e { data_map = delete key e.data_map })
              else e
        ])

  -- RevokeLease, run with no other call between its steps.
  unfoldable pub revoke_lease : (ℤ → ℤ) → (ℕ → ℤ) → ℤ → Exec W (Unit {0})
  revoke_lease whole clock id e = elim (Manager.get_lease whole (clock 0) id e.lease_manager) [
    | err x ↦ (e, err (lease_error x))
    | ok info ↦ leases (Manager.revoke id) (delete_leased (λ i. clock (i + 1)) id info.keys e)
  ]

  -- AttachToLease, run with no other call between its steps.
  unfoldable pub attach_to_lease : ℤ → Bytes → Exec W (Unit {0})
  attach_to_lease id key e = elim (lookup key e.data_map) [
    | none ↦ (e, err key_not_found)
    | some kv ↦
        (do
          modify (λ s.
              if ltb_ℤ (pos 0) kv.lease_id
              then record s { lease_manager = (Manager.detach key s.lease_manager).0 }
              else s)
          leases (Manager.attach id key)
          modify (λ s. record s { data_map = set_lease id key s.data_map }))
          e
  ]

  -- DetachFromLease, run with no other call between its steps.
  unfoldable pub detach_from_lease : Bytes → Exec W (Unit {0})
  detach_from_lease key e = elim (lookup key e.data_map) [
    | none ↦ (e, err key_not_found)
    | some kv ↦
        if ltb_ℤ (pos 0) kv.lease_id
        then (do
          leases (Manager.detach key)
          modify (λ s. record s {
            data_map =
                insert key (record kv { lease_id = pos 0; ttl = pos 0; expires = pos 0 })
                  s.data_map;
          }))
            e
        else (e, ok tt)
  ]

  -- Watch and CancelWatch; the channel conversion is not modelled.
  unfoldable pub watch : ℤ → Bytes → Bool → Bool → Exec W (Option ℤ)
  watch now key prefix prev_kv = when_open λ e.
      let (w, id) = Watcher.watch now key prefix prev_kv e.watcher in
      (record e { watcher = w }, ok id)

  unfoldable pub cancel_watch : ℤ → Exec W (Unit {0})
  cancel_watch id = when_open λ e.
      let (w, found) = Watcher.cancel id e.watcher in
      (record e { watcher = w }, if found then ok tt else err watch_not_found)

-- The sort of Range: two loops that swap what is out of order. `bubble` is the inner loop with
-- keys[i] in hand, over the keys after it.
unfoldable pub bubble : Bytes → List Bytes → Bytes × List Bytes
bubble x [] = (x, [])
bubble x (y ∷ ys) =
    let (m, rest) = bubble (if bytes_ltb y x then y else x) ys in
    (m, (if bytes_ltb y x then x else y) ∷ rest)

unfoldable pub sort_keys : ℕ → List Bytes → List Bytes
sort_keys fuel [] = []
sort_keys ℕ.zero (x ∷ xs) = x ∷ xs
sort_keys (ℕ.suc fuel) (x ∷ xs) = let (m, rest) = bubble x xs in m ∷ sort_keys fuel rest

unfoldable pub keys_between : ℤ → Bytes → Bytes → Data → List Bytes
keys_between now low high [] = []
keys_between now low high ((key, kv) ∷ rest) =
    let more = keys_between now low high rest in
    if is_expired now kv
    then more
    else if not (bytes_ltb key low) && bytes_ltb key high
    then key ∷ more
    else more

unfoldable pub values_of : List Bytes → Data → List KeyValue
values_of [] d = []
values_of (key ∷ keys) d =
    let more = values_of keys d in elim (lookup key d) [ none ↦ more | some kv ↦ kv ∷ more ]

-- The number of items that a limit allows: all of them, where it is not positive or not smaller.
unfoldable pub limited : ℤ → ℕ → ℕ
limited (pos l) n = if l == 0 then n else if ltb_ℤ (pos l) (pos n) then l else n
limited (negsuc l) n = n

-- Range: the values and the count.
unfoldable pub range : ℤ → Bytes → Bytes → ℤ → Data → List KeyValue × ℕ
range now key [] limit d = elim (lookup key d) [
  | none ↦ ([], 0)
  | some kv ↦ if is_expired now kv then ([], 0) else (kv ∷ [], 1)
]
range now key (c ∷ end) limit d =
    let keys = keys_between now key (c ∷ end) d in
    let sorted = sort_keys (length keys) keys in
    (values_of (take (limited limit (length sorted)) sorted) d, length sorted)

module _ {W : Type 0} (ops : WalWrapper W) where
  -- The first loop of BatchPut: one record for each key.
  unfoldable pub append_puts : ℤ → List (Bytes × Bytes) → Exec W (Unit {0})
  append_puts now [] = return tt
  append_puts now ((key, value) ∷ kvs) = do
    append_command ops (put_command now key value)
    append_puts now kvs

  -- BatchPut's second loop, in the order of the first (Go may range in another one). `clock` gives the times of the events.
  unfoldable pub write_all : (ℕ → ℤ) → ℤ → List (Bytes × Bytes) → ℤ → Engine W → Engine W
  write_all clock now [] ttl e = e
  write_all clock now ((key, value) ∷ kvs) ttl e =
      let found = lookup key e.data_map in
      let kv = written now key value ttl found in
      write_all (λ i. clock (i + 1)) now kvs ttl
        (announce watch_put (clock 0) key value (old_value found) kv.version
          (record e { data_map = insert key kv e.data_map }))

  -- BatchPut
  unfoldable pub batch_put : (ℕ → ℤ) → List (Bytes × Bytes) → ℤ → Exec W (Unit {0})
  batch_put clock kvs ttl = when_open do
    append_puts (clock 0) kvs
    sync_log ops
    modify (write_all (λ i. clock (i + 1)) (clock 0) kvs ttl)

  -- The body of BatchDelete's first loop: a key that is not there is skipped.
  unfoldable pub append_delete : ℤ → Bytes → Exec W (Unit {0})
  append_delete now key e = elim (lookup key e.data_map) [
    | none ↦ (e, ok tt)
    | some kv ↦ append_command ops (delete_command now key) e
  ]

  unfoldable pub append_deletes : ℤ → List Bytes → Exec W (Unit {0})
  append_deletes now [] = return tt
  append_deletes now (key ∷ keys) = do append_delete now key; append_deletes now keys

  -- BatchDelete
  unfoldable pub batch_delete : (ℕ → ℤ) → List Bytes → Exec W (Unit {0})
  batch_delete clock keys = when_open do
    append_deletes (clock 0) keys
    sync_log ops
    modify (delete_expired (λ i. clock (i + 1)) keys)

  -- recoverFromWAL, after ReadAll gave the records.
  unfoldable pub recover_from_wal : ℤ → Engine W → Engine W
  recover_from_wal now e = record e { data_map = replay now (ops.records e.wal) e.data_map }
