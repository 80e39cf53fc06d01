-- ===== src/Storage/Safekeeping.antt =====
-- Snapshots and Close of internal/storage/engine.go over the log of internal/wal/wal.go.
use my_etcd.Base.{
  ◌≡◌, ◌⊎◌, inl, inr, refl, sym, ap, subst, ◌∙◌, true, Option, List, [], Bytes, arith, split_if,
  split_option,
}
use my_etcd.Base.Words.{ℤ}
use my_etcd.Base.Result.{Result, ok, err}
use my_etcd.Types.{Command}
use my_etcd.Wal.Frames.{Codec, WalRecord}
use my_etcd.Wal.Log.{Wal, truncate}
use my_etcd.Wal.Reading.{IsCodec}
use my_etcd.Wal.Soundness.{IsSound}
use my_etcd.Wal.Recovery.{Reach, truncate-IsSound}
use my_etcd.Wal.History.{Reach-Recorded}
use my_etcd.Storage.Data.{replay}
use my_etcd.Storage.Engine.{WalWrapper, Engine}
use my_etcd.Storage.Logging.{IsDurable, SameValues, value_at}
use my_etcd.Storage.Persistence.{wal_log, restart, records-IsSound, restart-SameValues}
use my_etcd.Storage.Snapshots.{
  Snapshot, Store, SnapshotError, take_snapshot, truncate_log, write_snapshot, create_snapshot,
  close_parts, close_engine,
}

-- The data as it was, and the log as it was or truncated at its own index.
record Kept (e e' : Engine Wal) : Type 0 where
  same_data : e'.data_map ≡ e.data_map
  same_log : (e'.wal ≡ e.wal) ⊎ (e'.wal ≡ (truncate e.wal.index e.wal).0)

module _ (c : Codec) (kept : Command → Type 0) (codec : IsCodec c kept) (now : ℤ)
    (encode : Snapshot → Option Bytes) where
  unchanged : (e : Engine Wal) → Kept e e
  unchanged e = record { same_data = refl; same_log = inl refl }

  create_snapshot-Kept :
      (n made : ℤ) (s : Store Wal)
      → Kept s.engine (create_snapshot (wal_log c now) encode n made s).0.engine
  unfolding create_snapshot take_snapshot write_snapshot truncate_log
  create_snapshot-Kept n made s =
      split_if Ends s.engine.closed _ _ (λ y. unchanged s.engine)
        (λ open_.
          split_option Wrote (encode _) _ _ (λ m. unchanged s.engine)
            (λ plain e.
              split_option Wrote (encode _) _ _ (λ m. unchanged s.engine)
                (λ content f. record { same_data = refl; same_log = inr refl })))
    where
      Wrote : Store Wal × Result SnapshotError (Unit {0}) → Type 0
      Wrote r = Kept s.engine r.0.engine

      Ends : Result SnapshotError Snapshot → Type 0
      Ends r = Wrote (elim r [
        | err x ↦ (s, err x)
        | ok snapshot ↦ write_snapshot (wal_log c now) encode snapshot s
      ])

  Kept-restart :
      (max t : ℤ) (e e' : Engine Wal) (rs : List WalRecord)
      → IsSound c e.wal rs
      → IsDurable (wal_log c now) t e
      → Kept e e'
      → SameValues (restart c now max t e').data_map e'.data_map
  Kept-restart max t e e' rs sound durable h j =
      let later : IsSound c e'.wal rs = elim (h.same_log) [
        | inl same ↦ subst (λ (w : Wal). IsSound c w rs) (sym same) sound
        | inr same ↦
            subst (λ (w : Wal). IsSound c w rs) (sym same)
              (truncate-IsSound c e.wal.index e.wal rs sound (omega arith))
      ] in
      restart-SameValues c kept codec now max t e' rs later
        (λ k.
          ap (λ (cmds : List Command). value_at (replay t cmds []) k)
            (records-IsSound c kept codec now e'.wal rs later
              ∙ sym (records-IsSound c kept codec now e.wal rs sound))
          ∙ durable k
          ∙ ap (λ (d : _). value_at d k) (sym h.same_data))
        j

  -- createSnapshot with no other call in between, over the log of segment files on a disk that works:
  -- from a state in which the log replays to the values in memory, the data stay as they are, and an
  -- engine that is started again on the files of the log afterwards gives every key the value that it
  -- has in memory, although the snapshot's own file is not read: the truncation at the log's index
  -- takes no record away. Conditions: encoding/json is as `IsCodec` says, and the log came about as
  -- `Reach` says. It holds as well where the engine is closed or the snapshot cannot be encoded.
  pub create_snapshot_survives_restart :
      (n made max t : ℤ) (s : Store Wal) (cmds : List Command)
      → Reach c kept s.engine.wal cmds
      → IsDurable (wal_log c now) t s.engine
      → ((create_snapshot (wal_log c now) encode n made s).0.engine.data_map ≡ s.engine.data_map)
        × SameValues
            (restart c now max t
              (create_snapshot (wal_log c now) encode n made s).0.engine).data_map
            (create_snapshot (wal_log c now) encode n made s).0.engine.data_map
  create_snapshot_survives_restart n made max t s cmds reach durable =
      let (rs, sound, same) = Reach-Recorded c kept codec s.engine.wal cmds reach in
      let h = create_snapshot-Kept n made s in
      (h.same_data, Kept-restart max t s.engine _ rs sound durable h)

module _ {W : Type 0} (ops : WalWrapper W) (encode : Snapshot → Option Bytes) where
  -- Close marks the engine as closed before it calls createSnapshot, which refuses a closed engine: the
  -- final snapshot is never written, and Close leaves the snapshot files, snapshotIndex and the data as
  -- they were, and the engine closed.
  pub close_engine_writes_nothing :
      (now made : ℤ) (s : Store W)
      → ((close_engine ops encode now made s).0.files ≡ s.files)
        × ((close_engine ops encode now made s).0.snapshot_index ≡ s.snapshot_index)
        × ((close_engine ops encode now made s).0.engine.data_map ≡ s.engine.data_map)
        × ((close_engine ops encode now made s).0.engine.closed ≡ true)
  unfolding close_engine close_parts create_snapshot take_snapshot
  close_engine_writes_nothing now made s =
      split_if
        (λ (r : Store W × Result SnapshotError (Unit {0})).
          (r.0.files ≡ s.files)
          × (r.0.snapshot_index ≡ s.snapshot_index)
          × (r.0.engine.data_map ≡ s.engine.data_map)
          × (r.0.engine.closed ≡ true))
        s.engine.closed _ _ (λ y. (refl, refl, refl, y)) (λ n. (refl, refl, refl, refl))
