-- ===== src/Storage/BatchRecovery.antt =====
-- BatchPut of internal/storage/engine.go over internal/wal/wal.go, and a restart after it.
use my_etcd.Base.{
  ℕ, ◌+◌, ◌≡◌, sym, ap, List, [], ◌∷◌, ◌++◌, Bytes, bytes_eq, subst, ◌<◌, All, length, arith, true,
}
use my_etcd.Base.Words.{ℤ}
use my_etcd.Base.Result.{Result, ok}
use my_etcd.Types.{Command}
use my_etcd.Storage.Engine.{Engine}
use my_etcd.Storage.Queries.{batch_put}
use my_etcd.Storage.Persistence.{wal_log, restart, is_ok, wal_log-LogsWell, restart-SameValues}
use my_etcd.Wal.Frames.{Codec, WalRecord, WalError}
use my_etcd.Wal.Log.{Wal}
use my_etcd.Wal.Reading.{IsCodec}
use my_etcd.Wal.Soundness.{IsSound, Appended, appended, refused, append-Appended}
use my_etcd.Wal.Recovery.{Reach, sync-same}
use my_etcd.Wal.History.{Reach-Recorded}
use my_etcd.Storage.Logging.{IsDurable, SameValues}
use my_etcd.Storage.Batches.{batch_commands, LogsAll, batch_put-Keeps}

module _ (c : Codec) (kept : Command → Type 0) (codec : IsCodec c kept) (now : ℤ) where
  -- The log holds sealed records.
  Sound : Wal → Type 0
  Sound w = (rs : List WalRecord) × IsSound c w rs

  wal_log-LogsAll :
      (cmds : List Command) (w : Wal) (rs : List WalRecord)
      → All kept cmds
      → w.index + length cmds < 18446744073709551616
      → IsSound c w rs
      → LogsAll (wal_log c now) Sound cmds w
  unfolding Sound
  wal_log-LogsAll [] w rs k room h = (
    (rs, subst (λ (x : Wal). IsSound c x rs) (sym (sync-same w)) h),
    ap (λ (x : Wal). (wal_log c now).records x) (sync-same w),
  )
  wal_log-LogsAll (cmd ∷ cmds) w rs k room h = λ fine. (
    (wal_log-LogsWell c kept codec now cmd w rs k.0 (omega arith) h).append_ok fine,
    below (λ w' rs' next sound. wal_log-LogsAll cmds w' rs' k.1 (rw next (omega arith)) sound)
        (append-Appended c kept now cmd w rs codec k.0 (omega arith) h) fine,
  )
    where
      below :
          ((w' : Wal) (rs' : List WalRecord)
            → w'.index ≡ w.index + 1
            → IsSound c w' rs'
            → LogsAll (wal_log c now) Sound cmds w')
          → {r : Wal × Result WalError (Unit {0})} → Appended c cmd w rs r
          → is_ok r.1 ≡ true
          → LogsAll (wal_log c now) Sound cmds r.0
      below go (appended sealed y a b next sound) ok_lem = go _ (rs ++ (sealed ∷ [])) next sound
      below go (refused x same) ok_lem =
          absurd (cc (ok_lem, ap (λ (r : Wal × Result WalError (Unit {0})). is_ok r.1) same))

  -- BatchPut over the log of segment files, on a disk that works: if it returns no error, from a state
  -- in which the log replays to the values in memory, an engine that is started again on the files
  -- after the call gives every key the value that it has in memory, so all keys of the batch theirs.
  -- Conditions: encoding/json is as `IsCodec` says, the commands of the batch and those in the log are
  -- of the kind it keeps, the log came about as `Reach` says, and its index does not reach 2^64.
  pub batch_put_survives_restart :
      (clock : ℕ → ℤ) (kvs : List (Bytes × Bytes)) (ttl max t : ℤ) (e : Engine Wal)
      (cmds : List Command)
      → Reach c kept e.wal cmds
      → All kept (batch_commands (clock 0) kvs)
      → e.wal.index + length (batch_commands (clock 0) kvs) < 18446744073709551616
      → IsDurable (wal_log c now) t e
      → (batch_put (wal_log c now) clock kvs ttl e).1 ≡ ok tt
      → SameValues
          (restart c now max t (batch_put (wal_log c now) clock kvs ttl e).0).data_map
          (batch_put (wal_log c now) clock kvs ttl e).0.data_map
  unfolding Sound
  batch_put_survives_restart clock kvs ttl max t e cmds reach k room durable fine =
      let (rs, sound, same) = Reach-Recorded c kept codec e.wal cmds reach in
      let (later, kept_values) =
        batch_put-Keeps (wal_log c now) Sound t clock kvs ttl e
          (wal_log-LogsAll (batch_commands (clock 0) kvs) e.wal rs k room sound) durable fine in
      restart-SameValues c kept codec now max t _ later.0 later.1 kept_values
