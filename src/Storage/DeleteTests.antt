-- ===== src/Storage/DeleteTests.antt =====
-- Delete and BatchPut of internal/storage/engine.go at work, and a restart on the files of the log.
use my_etcd.Base.{
  ℕ, zero, suc, ◌+◌, ◌<◌, ◌≡◌, ◌≢◌, refl, sym, ◌∙◌, false, List, [], ◌∷◌, Bytes, codes, arith,
  length, bytes_eq, bytes_beq,
}
use my_etcd.Base.Words.{ℤ, pos}
use my_etcd.Base.GoMap.{lookup, insert}
use my_etcd.Base.Result.{Result, ok, err}
use my_etcd.Types.{Command, command_delete}
use my_etcd.Lease.Manager.{new_manager}
use my_etcd.Watch.Watcher.{new_watcher}
use my_etcd.Wal.Log.{
  Wal, new_wal, load_latest_segment, create_new_segment, append, sync, write_record, write_frame,
  read_all,
}
use my_etcd.Wal.Frames.{Codec, seal, read_segment, read_records}
use my_etcd.Wal.Segments.{open_file, read_segments, append_file}
use my_etcd.Wal.Recovery.{Reach, started, one_appended, synced}
use my_etcd.Wal.Sample.{numbered, Known, numbered-IsCodec}
use my_etcd.Storage.Data.{EngineError, sync_failed, replay, written}
use my_etcd.Storage.Engine.{
  Engine, put_command, delete_command, put, put_logged, delete_key, delete_logged, log_command,
  append_command, sync_log,
}
use my_etcd.Storage.Queries.{batch_put, append_puts}
use my_etcd.Storage.Logging.{IsDurable, SameValues}
use my_etcd.Storage.Persistence.{wal_log, restart, wal_log-LogsWell, delete_survives_restart}
use my_etcd.Storage.Durability.{put_well}
use my_etcd.Wal.History.{Reach-Recorded}
use my_etcd.Storage.Batches.{batch_commands}
use my_etcd.Storage.BatchRecovery.{batch_put_survives_restart}

abbrev clock : ℕ → ℤ
clock i = pos (i + 1)

-- The keys of the puts are told apart by their length.
abbrev number : Command → ℕ
number cmd = elim cmd.kind [ command_delete ↦ 0 | _ ↦ length cmd.key ]

abbrev known : ℕ → Command
known zero = delete_command (pos 1) (codes "k")
known (suc zero) = put_command (pos 1) (codes "k") (codes "v")
known (suc (suc n)) = put_command (pos 1) (codes "kk") (codes "v")

abbrev codec : Codec
codec = numbered number known

abbrev fresh : Engine Wal
fresh = record {
  data_map = [];
  transactions = [];
  wal = new_wal (pos 1000) [];
  watcher = new_watcher;
  lease_manager = new_manager;
  closed = false;
}

abbrev stored : Engine Wal
stored = (put (wal_log codec (pos 5)) clock (codes "k") (codes "v") (pos 0) fresh).0

abbrev batch : List (Bytes × Bytes)
batch = (codes "k", codes "v") ∷ (codes "kk", codes "v") ∷ []

fresh-IsDurable : IsDurable (wal_log codec (pos 5)) (pos 7) fresh
unfolding new_wal load_latest_segment create_new_segment replay read_all read_segments open_file
    read_segment read_records
fresh-IsDurable j = refl

not_failed : ◌≢◌ {A = Result EngineError (Unit {0})} (ok tt) (err sync_failed)
not_failed e = cc

put_ok : (put (wal_log codec (pos 5)) clock (codes "k") (codes "v") (pos 0) fresh).1 ≡ ok tt
unfolding put put_logged log_command append_command sync_log append sync write_record write_frame
    new_wal load_latest_segment create_new_segment seal
put_ok = refl

fresh_room : fresh.wal.index + 1 < 18446744073709551616
unfolding new_wal load_latest_segment create_new_segment
fresh_room = omega arith

stored-IsDurable : IsDurable (wal_log codec (pos 5)) (pos 7) stored
stored-IsDurable =
    let first = put_command (clock 0) (codes "k") (codes "v") in
    let kept = numbered-IsCodec number known in
    let (rs, sound, same) =
      Reach-Recorded codec (Known number known) kept fresh.wal [] (started (pos 1000)) in
    put_well (wal_log codec (pos 5)) (pos 7) clock (codes "k") (codes "v") (pos 0) fresh
      (wal_log-LogsWell codec (Known number known) kept (pos 5) first fresh.wal rs refl fresh_room
        sound)
      fresh-IsDurable (λ p. not_failed (sym put_ok ∙ p))

stored_log :
    Reach codec (Known number known) stored.wal (put_command (pos 1) (codes "k") (codes "v") ∷ [])
unfolding new_wal load_latest_segment create_new_segment put put_logged log_command append_command
    sync_log append sync write_record write_frame seal append_file
stored_log = synced (
    one_appended (pos 5) (put_command (pos 1) (codes "k") (codes "v")) (started (pos 1000)) refl
      (omega arith) refl)

stored_room : stored.wal.index + 1 < 18446744073709551616
unfolding new_wal load_latest_segment create_new_segment put put_logged log_command append_command
    sync_log append sync write_record write_frame seal append_file
stored_room = omega arith

delete_ok : (delete_key (wal_log codec (pos 5)) clock (codes "k") stored).1 ≡ ok tt
unfolding put put_logged log_command append_command sync_log append sync write_record write_frame
    new_wal load_latest_segment create_new_segment seal delete_key delete_logged lookup insert
    written append_file bytes_beq
delete_ok = refl

delete_synced : (delete_key (wal_log codec (pos 5)) clock (codes "k") stored).1 ≢ err sync_failed
delete_synced p = not_failed (sym delete_ok ∙ p)

delete_survives_restart_example :
    SameValues
      (restart codec
        (pos 5)
        (pos 10)
        (pos 7)
        (delete_key (wal_log codec (pos 5)) clock (codes "k") stored).0).data_map
      (delete_key (wal_log codec (pos 5)) clock (codes "k") stored).0.data_map
delete_survives_restart_example =
    delete_survives_restart codec (Known number known) (numbered-IsCodec number known) (pos 5) clock
      (codes "k") (pos 10) (pos 7) stored (put_command (pos 1) (codes "k") (codes "v") ∷ [])
      stored_log refl stored_room stored-IsDurable delete_synced

batch_ok : (batch_put (wal_log codec (pos 5)) clock batch (pos 0) fresh).1 ≡ ok tt
unfolding batch_put append_puts append_command sync_log append sync write_record write_frame new_wal
    load_latest_segment create_new_segment seal
batch_ok = refl

batch_room : fresh.wal.index + length (batch_commands (clock 0) batch) < 18446744073709551616
unfolding new_wal load_latest_segment create_new_segment
batch_room = omega arith

batch_put_survives_restart_example :
    SameValues
      (restart codec
        (pos 5)
        (pos 10)
        (pos 7)
        (batch_put (wal_log codec (pos 5)) clock batch (pos 0) fresh).0).data_map
      (batch_put (wal_log codec (pos 5)) clock batch (pos 0) fresh).0.data_map
batch_put_survives_restart_example =
    batch_put_survives_restart codec (Known number known) (numbered-IsCodec number known) (pos 5)
      clock batch (pos 0) (pos 10) (pos 7) fresh [] (started (pos 1000)) (refl, (refl, tt))
      batch_room fresh-IsDurable batch_ok
