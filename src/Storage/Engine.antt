-- ===== src/Storage/Engine.antt =====
-- The operations of the storage engine of internal/storage/engine.go, each whole under e.mu. A call
-- that reads the clock several times takes the readings in order as `clock 0`, `clock 1`, ….
use my_etcd.Base.{
  ℕ, ◌+◌, Bool, true, false, Option, none, some, List, [], ◌∷◌, Bytes, bytes_eq, ◌==◌,
  if◌then◌else◌,
}
use my_etcd.Base.Words.{ℤ, pos, int_eq, ltb_ℤ}
use my_etcd.Base.GoMap.{GoMap, lookup, insert, delete}
use my_etcd.Base.Result.{Result, ok, err}
use my_etcd.Types.{Command, command_put, command_delete}
use my_etcd.Lease.Manager.{LeaseError, LeaseManager}
use my_etcd.Lease.Manager
use my_etcd.Watch.Watcher.{Watcher, WatchEventType, watch_put, watch_delete, notify}
use my_etcd.Storage.Data.{
  EngineError, engine_closed, key_not_found, key_expired, cas_failed, append_failed, sync_failed,
  lease_error, KeyValue, Transaction, Data, is_expired, written,
}

-- WALWrapper, the log that the engine is given: what the engine calls of it, and `records`, the
-- commands that ReadAll returns of it. Append, Sync, Truncate and Close say whether they returned no
-- error.
pub record WalWrapper (W : Type 0) : Type 0 where
  pub append : Command → W → W × Bool
  pub sync : W → W × Bool
  pub records : W → List Command
  pub index : W → ℕ
  pub term : W → ℕ
  pub truncate : ℕ → W → W × Bool
  pub close : W → W × Bool

pub record Engine (W : Type 0) : Type 0 where
  pub data_map : Data
  pub transactions : GoMap Bytes Transaction
  pub wal : W
  pub watcher : Watcher
  pub lease_manager : LeaseManager
  pub closed : Bool

abbrev pub Exec : Type 0 → Type 0 → Type 0
Exec W A = Engine W → Engine W × Result EngineError A

module _ {W : Type 0} where
  abbrev pub return : {A : Type 0} → A → Exec W A
  return a e = (e, ok a)

  abbrev pub fail : {A : Type 0} → EngineError → Exec W A
  fail x e = (e, err x)

  abbrev pub modify : (Engine W → Engine W) → Exec W (Unit {0})
  modify f e = (f e, ok tt)

  abbrev pub next_step :
      {A B : Type 0}
      → Engine W × Result EngineError A
      → (A → Exec W B)
      → Engine W × Result EngineError B
  next_step (e, ok a) f = f a e
  next_step (e, err x) f = (e, err x)

  infixl 10 ◌>>=◌ ◌>>◌
  abbrev pub ◌>>=◌ : {A B : Type 0} → Exec W A → (A → Exec W B) → Exec W B
  ◌>>=◌ m f e = next_step (m e) f

  abbrev pub ◌>>◌ : {A B : Type 0} → Exec W A → Exec W B → Exec W B
  m >> n = m >>= λ _. n

  -- "engine is closed"
  abbrev pub when_open : {A : Type 0} → Exec W A → Exec W A
  when_open m e = if e.closed then (e, err engine_closed) else m e

  -- A call of the lease manager.
  abbrev pub leases : {A : Type 0} → (LeaseManager → LeaseManager × Result LeaseError A) → Exec W A
  leases f e =
      let (m, r) = f e.lease_manager in
      (record e { lease_manager = m }, elim r [ ok a ↦ ok a | err x ↦ err (lease_error x) ])

  abbrev pub announce : WatchEventType → ℤ → Bytes → Bytes → Bytes → ℤ → Engine W → Engine W
  announce kind now key value prev version e = record e {
    watcher =
        notify
          (record {
            kind = kind;
            key = key;
            value = value;
            prev_value = prev;
            version = version;
            timestamp = now;
          })
          e.watcher;
  }

abbrev pub put_command : ℤ → Bytes → Bytes → Command
put_command now key value = record {
  kind = command_put;
  key = key;
  value = value;
  term = 0;
  index = 0;
  time = now;
}

abbrev pub delete_command : ℤ → Bytes → Command
delete_command now key = record {
  kind = command_delete;
  key = key;
  value = [];
  term = 0;
  index = 0;
  time = now;
}

abbrev pub old_value : Option KeyValue → Bytes
old_value found = elim found [ none ↦ [] | some kv ↦ kv.value ]

abbrev pub is_nil : Bytes → Bool
is_nil [] = true
is_nil (x ∷ xs) = false

abbrev pub set_lease : ℤ → Bytes → Data → Data
set_lease id key d = elim (lookup key d) [
  | none ↦ d
  | some kv ↦ insert key (record kv { lease_id = id }) d
]

module _ {W : Type 0} (ops : WalWrapper W) where
  unfoldable pub append_command : Command → Exec W (Unit {0})
  append_command cmd e =
      let (w, fine) = ops.append cmd e.wal in
      (record e { wal = w }, if fine then ok tt else err append_failed)

  unfoldable pub sync_log : Exec W (Unit {0})
  sync_log e =
      let (w, fine) = ops.sync e.wal in
      (record e { wal = w }, if fine then ok tt else err sync_failed)

  -- The two steps before any change of the data: append the command, then sync the log.
  unfoldable pub log_command : Command → Exec W (Unit {0})
  unfolding append_command sync_log
  log_command cmd = do append_command cmd; sync_log

  -- Put attaches the key to its new lease and stores the ID; where Attach fails, the lease is
  -- revoked again.
  unfoldable pub attach_new : Bytes → ℤ → Exec W (Unit {0})
  attach_new key id e =
      let (m, r) = Manager.attach id key e.lease_manager in
      elim r [
        | ok u ↦ (record e { lease_manager = m; data_map = set_lease id key e.data_map }, ok tt)
        | err x ↦ (record e { lease_manager = (Manager.revoke id m).0 }, err (lease_error x))
      ]

  -- Put's lease: a new one for the key.
  unfoldable pub lease_key : (ℕ → ℤ) → Bytes → ℤ → Exec W (Unit {0})
  lease_key clock key ttl = do id ← leases (Manager.grant (clock 2) ttl); attach_new key id

  -- Put, from "apply to memory" on.
  unfoldable pub put_logged : (ℕ → ℤ) → Bytes → Bytes → ℤ → Exec W (Unit {0})
  put_logged clock key value ttl e =
      let found = lookup key e.data_map in
      let kv = written (clock 1) key value ttl found in
      (do
        if ltb_ℤ (pos 0) ttl then lease_key clock key ttl else return tt
        modify (announce watch_put (clock 3) key value (old_value found) kv.version))
        (record e { data_map = insert key kv e.data_map })

  -- Put
  unfoldable pub put : (ℕ → ℤ) → Bytes → Bytes → ℤ → Exec W (Unit {0})
  put clock key value ttl =
      when_open do log_command (put_command (clock 0) key value); put_logged clock key value ttl

  -- Get; `some key` beside the result is the key that a goroutine will delete.
  unfoldable pub get : ℤ → Bytes → Engine W → Result EngineError KeyValue × Option Bytes
  get now key e = if e.closed then (err engine_closed, none) else (elim (lookup key e.data_map) [
    | none ↦ (err key_not_found, none)
    | some kv ↦ if is_expired now kv then (err key_expired, some key) else (ok kv, none)
  ])

  -- The goroutine that Get starts on an expired key.
  unfoldable pub delete_later : Bytes → Engine W → Engine W
  delete_later key e = record e { data_map = delete key e.data_map }

  -- Delete, once the command is logged.
  unfoldable pub delete_logged : (ℕ → ℤ) → Bytes → KeyValue → Exec W (Unit {0})
  delete_logged clock key kv e = (
    announce watch_delete (clock 1) key [] kv.value (pos 0)
        (record e { data_map = delete key e.data_map }),
    ok tt,
  )

  -- Delete. The key is gone when the source asks for its lease, so nothing is detached.
  unfoldable pub delete_key : (ℕ → ℤ) → Bytes → Exec W (Unit {0})
  delete_key clock key = when_open λ e. elim (lookup key e.data_map) [
    | none ↦ (e, err key_not_found)
    | some kv ↦ (do log_command (delete_command (clock 0) key); delete_logged clock key kv) e
  ]

  -- putUnsafe
  unfoldable pub put_unsafe : (ℕ → ℤ) → Bytes → Bytes → ℤ → Exec W (Unit {0})
  put_unsafe clock key value ttl = do
    log_command (put_command (clock 0) key value)
    λ e.
        (let kv = written (clock 1) key value ttl (lookup key e.data_map) in
          (
            announce watch_put (clock 2) key value [] kv.version
                (record e { data_map = insert key kv e.data_map }),
            ok tt,
          ))

  -- CompareAndSwap
  unfoldable pub compare_and_swap : (ℕ → ℤ) → Bytes → Bytes → Bytes → Exec W (Unit {0})
  compare_and_swap clock key prev new =
      let swap = put_unsafe (λ i. clock (i + 1)) key new (pos 0) in
      when_open λ e. elim (lookup key e.data_map) [
        | none ↦ if is_nil prev then swap e else (e, err cas_failed)
        | some kv ↦
            if is_expired (clock 0) kv
            then (let e' = record e { data_map = delete key e.data_map } in
                if is_nil prev then swap e' else (e', err cas_failed))
            else if kv.value == prev
            then swap e
            else (e, err cas_failed)
      ]
