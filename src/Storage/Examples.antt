-- ===== src/Storage/Examples.antt =====
-- The theorems on internal/storage/engine.go at work, with a list of commands for the log.
use my_etcd.Base.{
  ℕ, ◌+◌, ◌≡◌, ◌≢◌, refl, true, false, List, [], ◌∷◌, ◌++◌, Bytes, codes, bytes_eq, bytes_beq, ap,
  last_of, arith,
}
use my_etcd.Base.Words.{ℤ, pos}
use my_etcd.Base.GoMap.{lookup, insert}
use my_etcd.Base.Result.{ok, err}
use my_etcd.Types.{Command, command_put}
use my_etcd.Lease.Manager.{new_manager}
use my_etcd.Watch.Watcher.{new_watcher}
use my_etcd.Storage.Data.{sync_failed, KeyValue, written, is_expired, txn_pending, replay}
use my_etcd.Storage.Engine.{
  WalWrapper, Engine, put_command, put, get, put_logged, log_command, append_command, sync_log,
  compare_and_swap, put_unsafe,
}
use my_etcd.Storage.Queries.{commit_transaction, recover_from_wal}
use my_etcd.Storage.Durability.{put_well, commit_is_lost}
use my_etcd.Storage.Logging.{LogsWell, IsDurable, value_at}
use my_etcd.Storage.Reads.{get-put}
use my_etcd.Storage.Queries.{range}
use my_etcd.Storage.Answers.{IsAnswer, range_lem}
use my_etcd.Base.{if◌then◌else◌}
use my_etcd.Base.GoMap.{Distinct}
use my_etcd.Storage.Data.{Data}
use my_etcd.Storage.Queries.{lease_cleanup}
use my_etcd.Base.{none}
use my_etcd.Base.Words.{int_eq}
use my_etcd.Lease.Expiry.{gone_keys}
use my_etcd.Storage.Leases.{listed, lease_cleanup_exact}
use my_etcd.Storage.Swaps.{SwapDone, compare_and_swap-SwapDone}

-- A log that never fails.
abbrev list_log : WalWrapper (List Command)
list_log = record {
  append = λ cmd w. (w ++ (cmd ∷ []), true);
  sync = λ w. (w, true);
  records = λ w. w;
  index = λ w. 0;
  term = λ w. 0;
  truncate = λ i w. (w, true);
  close = λ w. (w, true);
}

list_log-LogsWell : (cmd : Command) (w : List Command) → LogsWell list_log cmd w
list_log-LogsWell cmd w = record {
  append_ok = λ h. refl;
  append_fails = λ h. absurd (cc h);
  sync_keeps = λ h. refl;
}

abbrev key : Bytes
key = codes "k"

abbrev other_key : Bytes
other_key = codes "j"

abbrev empty_engine : Engine (List Command)
empty_engine = record {
  data_map = [];
  transactions = [];
  wal = [];
  watcher = new_watcher;
  lease_manager = new_manager;
  closed = false;
}

-- Readings one second apart.
abbrev clock : ℕ → ℤ
clock i = pos (i + 1)

abbrev stored : Engine (List Command)
stored = (put list_log clock key (codes "v") (pos 0) empty_engine).0

put_ok : (put list_log clock key (codes "v") (pos 0) empty_engine).1 ≡ ok tt
unfolding put put_logged log_command append_command sync_log
put_ok = refl

put_synced : (put list_log clock key (codes "v") (pos 0) empty_engine).1 ≢ err sync_failed
unfolding put put_logged log_command append_command sync_log
put_synced p = cc

empty-IsDurable : IsDurable list_log (pos 9) empty_engine
unfolding replay
empty-IsDurable j = refl

stored-IsDurable : IsDurable list_log (pos 9) stored
stored-IsDurable =
    put_well list_log (pos 9) clock key (codes "v") (pos 0) empty_engine
      (list_log-LogsWell (put_command (clock 0) key (codes "v")) []) empty-IsDurable put_synced

get-put_example :
    (kv : KeyValue) × ((get list_log (pos 9) key stored).0 ≡ ok kv)
    × (kv.value ≡ codes "v")
    × (kv.version ≡ pos 1)
unfolding lookup
get-put_example = get-put list_log clock (pos 9) key (codes "v") empty_engine put_ok

apart : key ≢ other_key
apart p = absurd (omega (arith, ap (λ (b : Bytes). last_of 0 b) p))

-- A transaction that is to put the key.
abbrev with_transaction : Engine (List Command)
with_transaction = record empty_engine {
  transactions =
      (
        codes "t",
        record {
          id = codes "t";
          operations = record { kind = command_put; key = key; value = codes "v"; prev = [] } ∷ [];
          timestamp = pos 1;
          status = txn_pending;
        },
      )
      ∷ [];
}

commit_is_lost_example :
    value_at
      (recover_from_wal list_log
        (pos 9)
        (record (commit_transaction (pos 2) (codes "t") with_transaction).0 {
          data_map = [];
        })).data_map
      key
    ≡ value_at with_transaction.data_map key
commit_is_lost_example =
    commit_is_lost list_log (pos 9) (pos 2) (codes "t") with_transaction empty-IsDurable key

swap_ok : (compare_and_swap list_log clock key (codes "v") (codes "w") stored).1 ≡ ok tt
unfolding put put_logged log_command append_command sync_log compare_and_swap put_unsafe lookup
    insert is_expired written bytes_beq
swap_ok = refl

compare_and_swap-SwapDone_example :
    SwapDone
      (clock 0)
      key
      (codes "v")
      (codes "w")
      stored.data_map
      (compare_and_swap list_log clock key (codes "v") (codes "w") stored).0.data_map
compare_and_swap-SwapDone_example =
    compare_and_swap-SwapDone list_log clock key (codes "v") (codes "w") stored swap_ok

-- Two keys, not in order.
abbrev two_keys : Data
two_keys =
    let kv : KeyValue = record {
      key = key;
      value = codes "v";
      created = pos 1;
      modified = pos 1;
      version = pos 1;
      ttl = pos 0;
      expires = pos 0;
      lease_id = pos 0;
    } in
    (key, kv) ∷ (other_key, record kv { key = other_key }) ∷ []

two_keys-Distinct : Distinct two_keys
unfolding lookup bytes_beq
two_keys-Distinct = (refl, (refl, tt))

range_lem_example :
    IsAnswer
      (pos 9)
      (codes "a")
      (codes "z")
      (pos 1)
      two_keys
      (range (pos 9) (codes "a") (codes "z") (pos 1) two_keys)
range_lem_example = range_lem (pos 9) (codes "a") b'z' [] (pos 1) two_keys two_keys-Distinct

-- The two keys, the first of them on a lease that is past its time at 50.
abbrev leased : Engine (List Command)
leased = record empty_engine {
  data_map = two_keys;
  lease_manager = record new_manager {
    leases =
        (
          pos 2,
          record { id = pos 2; ttl = pos 1; granted = pos 0; expires = pos 40; keys = key ∷ [] },
        )
        ∷ [];
    key_to_lease = (key, pos 2) ∷ [];
  };
}

leases-Distinct : Distinct leased.lease_manager.leases
unfolding lookup
leases-Distinct = (refl, tt)

still_open : leased.lease_manager.closed ≡ false
unfolding new_manager
still_open = refl

lease_cleanup_exact_example : lookup key (lease_cleanup (λ i. pos 50) leased).data_map ≡ (
    if listed key (gone_keys (pos 50) leased.lease_manager leased.lease_manager.leases)
    then none
    else lookup key leased.data_map)
lease_cleanup_exact_example =
    lease_cleanup_exact (λ i. pos 50) leased still_open leases-Distinct key
