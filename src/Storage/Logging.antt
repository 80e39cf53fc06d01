-- ===== src/Storage/Logging.antt =====
-- What internal/storage/engine.go relies on of its log, and what logging a command comes to.
use my_etcd.Base.{
  ◌≡◌, refl, ◌∙◌, true, false, Option, none, some, List, [], ◌∷◌, ◌++◌, Bytes, bytes_eq, ◌==◌,
  if◌then◌else◌, arith, Bool-cases, inl, inr,
}
use my_etcd.Base.Words.{ℤ}
use my_etcd.Base.GoMap.{lookup, insert, delete, lookup-insert, lookup-delete}
use my_etcd.Base.Result.{Result, ok, err}
use my_etcd.Types.{Command}
use my_etcd.Storage.Data.{
  EngineError, append_failed, sync_failed, KeyValue, Data, written, applied_value, apply_command,
  replay,
}
use my_etcd.Storage.Engine.{WalWrapper, Engine, append_command, sync_log, log_command}

-- What logging a command relies on of the log in the state in which it finds it: an Append that
-- succeeds adds its command at the end of what ReadAll returns, one that fails adds nothing, and Sync
-- changes no record.
pub record LogsWell {W : Type 0} (ops : WalWrapper W) (cmd : Command) (w : W) : Type 0 where
  pub append_ok :
      (ops.append cmd w).1 ≡ true → ops.records (ops.append cmd w).0 ≡ ops.records w ++ (cmd ∷ [])
  pub append_fails : (ops.append cmd w).1 ≡ false → ops.records (ops.append cmd w).0 ≡ ops.records w
  pub sync_keeps :
      (ops.append cmd w).1 ≡ true
      → ops.records (ops.sync (ops.append cmd w).0).0 ≡ ops.records (ops.append cmd w).0

-- The values of the keys: what remains of the data once times, versions and leases are left out.
abbrev pub value_at : Data → Bytes → Option Bytes
value_at d key = elim (lookup key d) [ none ↦ none | some kv ↦ some kv.value ]

abbrev pub SameValues : Data → Data → Type 0
SameValues a b = (key : Bytes) → value_at a key ≡ value_at b key

pub value_at-written :
    (now : ℤ) (key value : Bytes) (ttl : ℤ) (found : Option KeyValue)
    → (written now key value ttl found).value ≡ value
unfolding written
value_at-written now key value ttl none = refl
value_at-written now key value ttl (some kv) = refl

pub value_at-applied :
    (now : ℤ) (key value : Bytes) (found : Option KeyValue)
    → (applied_value now key value found).value ≡ value
unfolding applied_value
value_at-applied now key value none = refl
value_at-applied now key value (some kv) = refl

-- A store changes the value of its key alone, a delete takes it away.
pub value_at-insert :
    (key j : Bytes) (kv : KeyValue) (d : Data)
    → value_at (insert key kv d) j ≡ (if key == j then some kv.value else value_at d j)
value_at-insert key j kv d = ground (arith, lookup-insert key j kv d)

pub value_at-delete :
    (key j : Bytes) (d : Data)
    → value_at (delete key d) j ≡ (if key == j then none else value_at d j)
value_at-delete key j d = ground (arith, lookup-delete key j d)

pub replay-append :
    (now : ℤ) (cmds : List Command) (cmd : Command) (d : Data)
    → replay now (cmds ++ (cmd ∷ [])) d ≡ (apply_command now cmd (replay now cmds d)).0
unfolding replay
replay-append now [] cmd d = refl
replay-append now (c ∷ cmds) cmd d = replay-append now cmds cmd _

-- After a restart at the clock's reading `now` the keys have the values that they have in memory.
abbrev pub IsDurable : {W : Type 0} → WalWrapper W → ℤ → Engine W → Type 0
IsDurable ops now e = SameValues (replay now (ops.records e.wal) []) e.data_map

-- How logging a command ends: logged, refused by Append, or refused by Sync.
pub data Logged {W : Type 0} (ops : WalWrapper W) (cmd : Command) (e : Engine W)
    (r : Engine W × Result EngineError (Unit {0})) : Type 0 where
  logged :
      (w : W)
      → r ≡ (record e { wal = w }, ok tt)
      → ops.records w ≡ ops.records e.wal ++ (cmd ∷ [])
      → Logged ops cmd e r
  not_appended :
      (w : W)
      → r ≡ (record e { wal = w }, err append_failed)
      → ops.records w ≡ ops.records e.wal
      → Logged ops cmd e r
  not_synced : (w : W) → r ≡ (record e { wal = w }, err sync_failed) → Logged ops cmd e r

pub log_command-Logged :
    {W : Type 0} (ops : WalWrapper W) (cmd : Command) (e : Engine W)
    → LogsWell ops cmd e.wal
    → Logged ops cmd e (log_command ops cmd e)
unfolding log_command append_command sync_log
log_command-Logged ops cmd e well =
    let w = (ops.append cmd e.wal).0 in
    elim (Bool-cases (ops.append cmd e.wal).1) [
      | inl a ↦ elim (Bool-cases (ops.sync w).1) [
        | inl s ↦ logged (ops.sync w).0 (rw (a, s)) (well.sync_keeps a ∙ well.append_ok a)
        | inr s ↦ not_synced (ops.sync w).0 (rw (a, s))
      ]
      | inr a ↦ not_appended w (rw a) (well.append_fails a)
    ]
