-- ===== src/Storage/RestartTests.antt =====
-- A restart of the engine of internal/storage/engine.go on the files of its log.
use my_etcd.Base.{
  ℕ, ◌+◌, ◌<◌, ◌≡◌, ◌≢◌, refl, sym, ◌∙◌, true, false, Option, some, [], ◌∷◌, Bytes, codes, arith,
}
use my_etcd.Base.Words.{ℤ, pos}
use my_etcd.Base.Result.{Result, ok, err}
use my_etcd.Lease.Manager.{new_manager}
use my_etcd.Watch.Watcher.{new_watcher}
use my_etcd.Wal.Log.{
  Wal, new_wal, load_latest_segment, create_new_segment, append, sync, write_record, write_frame,
  read_all,
}
use my_etcd.Wal.Frames.{seal, read_segment, read_records}
use my_etcd.Wal.Segments.{open_file, read_segments}
use my_etcd.Wal.Recovery.{started}
use my_etcd.Wal.Sample.{sample, one_command, Is, one_command-IsCodec}
use my_etcd.Storage.Data.{EngineError, sync_failed, replay}
use my_etcd.Storage.Engine.{Engine, put, put_logged, log_command, append_command, sync_log}
use my_etcd.Storage.Logging.{IsDurable, SameValues}
use my_etcd.Storage.Snapshots.{
  Snapshot, Store, create_snapshot, close_engine, crc32_checksum, add_bytes, shift_bits, xor,
}
use my_etcd.Storage.Safekeeping.{create_snapshot_survives_restart, close_engine_writes_nothing}
use my_etcd.Storage.Persistence.{wal_log, restart, put_survives_restart}

abbrev clock : ℕ → ℤ
clock i = pos (i + 1)

abbrev fresh : Engine Wal
fresh = record {
  data_map = [];
  transactions = [];
  wal = new_wal (pos 1000) [];
  watcher = new_watcher;
  lease_manager = new_manager;
  closed = false;
}

abbrev stored : Engine Wal
stored = (put (wal_log (one_command sample) (pos 5)) clock (codes "k") (codes "v") (pos 0) fresh).0

fresh_room : fresh.wal.index + 1 < 18446744073709551616
unfolding new_wal load_latest_segment create_new_segment
fresh_room = omega arith

fresh-IsDurable : IsDurable (wal_log (one_command sample) (pos 5)) (pos 7) fresh
unfolding new_wal load_latest_segment create_new_segment replay read_all read_segments open_file
    read_segment read_records
fresh-IsDurable j = refl

put_ok :
    (put (wal_log (one_command sample) (pos 5)) clock (codes "k") (codes "v") (pos 0) fresh).1
    ≡ ok tt
unfolding put put_logged log_command append_command sync_log append sync write_record write_frame
    new_wal load_latest_segment create_new_segment seal
put_ok = refl

put_synced :
    (put (wal_log (one_command sample) (pos 5)) clock (codes "k") (codes "v") (pos 0) fresh).1
    ≢ err sync_failed
put_synced p = not_failed (sym put_ok ∙ p)
  where
    not_failed : ◌≢◌ {A = Result EngineError (Unit {0})} (ok tt) (err sync_failed)
    not_failed e = cc

put_survives_restart_example :
    SameValues
      (restart (one_command sample) (pos 5) (pos 10) (pos 7) stored).data_map
      stored.data_map
put_survives_restart_example =
    put_survives_restart (one_command sample) (Is sample) (one_command-IsCodec sample) (pos 5) clock
      (codes "k") (codes "v") (pos 0) (pos 10) (pos 7) fresh [] (started (pos 1000)) refl fresh_room
      fresh-IsDurable put_synced

abbrev store : Store Wal
store = record { engine = fresh; snapshot_index = 0; files = [] }

abbrev encode : Snapshot → Option Bytes
encode s = some (s.index ∷ s.term ∷ s.checksum ∷ [])

create_snapshot_survives_restart_example :
    ((create_snapshot
        (wal_log (one_command sample) (pos 5))
        encode
        (pos 8)
        (pos 9)
        store).0.engine.data_map
      ≡ store.engine.data_map)
    × SameValues
        (restart
          (one_command sample)
          (pos 5)
          (pos 10)
          (pos 7)
          (create_snapshot
            (wal_log (one_command sample) (pos 5))
            encode
            (pos 8)
            (pos 9)
            store).0.engine).data_map
        (create_snapshot
          (wal_log (one_command sample) (pos 5))
          encode
          (pos 8)
          (pos 9)
          store).0.engine.data_map
create_snapshot_survives_restart_example =
    create_snapshot_survives_restart (one_command sample) (Is sample) (one_command-IsCodec sample)
      (pos 5) encode (pos 8) (pos 9) (pos 10) (pos 7) store [] (started (pos 1000)) fresh-IsDurable

abbrev closed_store : Store Wal
closed_store = (close_engine (wal_log (one_command sample) (pos 5)) encode (pos 8) (pos 9) store).0

close_engine_writes_nothing_example :
    (closed_store.files ≡ store.files)
    × (closed_store.snapshot_index ≡ store.snapshot_index)
    × (closed_store.engine.data_map ≡ store.engine.data_map)
    × (closed_store.engine.closed ≡ true)
close_engine_writes_nothing_example =
    close_engine_writes_nothing (wal_log (one_command sample) (pos 5)) encode (pos 8) (pos 9) store

-- The CRC-32 of the standard test text.
crc_test : crc32_checksum (codes "123456789") ≡ 3421780262
unfolding crc32_checksum add_bytes shift_bits xor
crc_test = refl
