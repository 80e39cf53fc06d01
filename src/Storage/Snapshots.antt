-- ===== src/Storage/Snapshots.antt =====
-- createSnapshot, crc32Checksum and Close of internal/storage/engine.go. The directory of snapshots is
-- a list of files, the newest first; encoding/json is the parameter `encode`.
use my_etcd.Base.{
  ℕ, zero, suc, ◌+◌, ◌-◌, ◌*◌, ◌/◌, ◌%◌, true, Option, none, some, List, [], ◌∷◌, Bytes,
  if◌then◌else◌, ◌==◌, nat_eq,
}
use my_etcd.Base.Words.{ℤ}
use my_etcd.Base.Result.{Result, ok, err}
use my_etcd.Lease.Manager
use my_etcd.Watch.Watcher
use my_etcd.Storage.Data.{Data, is_expired}
use my_etcd.Storage.Engine.{WalWrapper, Engine}

-- types.Snapshot
pub record Snapshot : Type 0 where
  pub index : ℕ
  pub term : ℕ
  pub data_map : Data
  pub checksum : ℕ
  pub timestamp : ℤ

-- A file of the snapshot directory: the two numbers of its name, and its content.
pub record SnapshotFile : Type 0 where
  pub index : ℕ
  pub term : ℕ
  pub content : Bytes

-- The engine with its field snapshotIndex and its snapshot directory.
pub record Store (W : Type 0) : Type 0 where
  pub engine : Engine W
  pub snapshot_index : ℕ
  pub files : List SnapshotFile

pub data SnapshotError : Type 0 where
  snapshot_closed snapshot_not_encoded log_not_truncated log_not_closed : SnapshotError

-- The bits of two uint32 numbers, compared one by one; `rounds` is the number of bits.
unfoldable pub xor : ℕ → ℕ → ℕ → ℕ
xor zero a b = 0
xor (suc rounds) a b = (a % 2 + b % 2) % 2 + 2 * xor rounds (a / 2) (b / 2)

-- The inner loop of crc32Checksum.
unfoldable pub shift_bits : ℕ → ℕ → ℕ
shift_bits zero crc = crc
shift_bits (suc rounds) crc =
    shift_bits rounds (if crc % 2 == 1 then xor 32 (crc / 2) 3988292384 else crc / 2)

-- Its loop over the bytes.
unfoldable pub add_bytes : Bytes → ℕ → ℕ
add_bytes [] crc = crc
add_bytes (b ∷ bytes) crc = add_bytes bytes (shift_bits 8 (xor 32 crc b))

-- crc32Checksum; the complement of a uint32 is its difference from the greatest one.
unfoldable pub crc32_checksum : Bytes → ℕ
crc32_checksum bytes = 4294967295 - add_bytes bytes 4294967295

-- The copy of createSnapshot: the keys that have not expired.
unfoldable pub live_copies : ℤ → Data → Data
live_copies now [] = []
live_copies now ((key, kv) ∷ rest) =
    let more = live_copies now rest in if is_expired now kv then more else (key, kv) ∷ more

module _ {W : Type 0} (ops : WalWrapper W) (encode : Snapshot → Option Bytes) where
  -- The first part of createSnapshot, under the engine's lock: `now` is the clock there, `made` the one
  -- at which the snapshot is stamped.
  unfoldable pub take_snapshot : ℤ → ℤ → Engine W → Result SnapshotError Snapshot
  take_snapshot now made e =
      if e.closed
      then err snapshot_closed
      else ok (record {
        index = ops.index e.wal;
        term = ops.term e.wal;
        data_map = live_copies now e.data_map;
        checksum = 0;
        timestamp = made;
      })

  -- The truncation at the end of createSnapshot.
  unfoldable pub truncate_log : ℕ → Store W → Store W × Result SnapshotError (Unit {0})
  truncate_log index s =
      let (w, fine) = ops.truncate index s.engine.wal in
      (
        record s { engine = record (s.engine) { wal = w } },
        if fine then ok tt else err log_not_truncated,
      )

  -- The second part, from the checksum on, where the disk works.
  unfoldable pub write_snapshot : Snapshot → Store W → Store W × Result SnapshotError (Unit {0})
  write_snapshot snapshot s = elim (encode snapshot) [
    | none ↦ (s, err snapshot_not_encoded)
    | some plain ↦ elim (encode (record snapshot { checksum = crc32_checksum plain })) [
      | none ↦ (s, err snapshot_not_encoded)
      | some content ↦ truncate_log snapshot.index (record s {
        snapshot_index = snapshot.index;
        files =
            record { index = snapshot.index; term = snapshot.term; content = content } ∷ s.files;
      })
    ]
  ]

  -- createSnapshot, with no other call between its two parts.
  unfoldable pub create_snapshot : ℤ → ℤ → Store W → Store W × Result SnapshotError (Unit {0})
  create_snapshot now made s = elim (take_snapshot now made s.engine) [
    | err x ↦ (s, err x)
    | ok snapshot ↦ write_snapshot snapshot s
  ]

  -- The parts of Close after the snapshot.
  unfoldable pub close_parts : Store W → Store W × Result SnapshotError (Unit {0})
  close_parts s =
      let (w, fine) = ops.close s.engine.wal in
      (
        record s {
          engine = record (s.engine) {
            watcher = Watcher.stop s.engine.watcher;
            lease_manager = Manager.close s.engine.lease_manager;
            wal = w;
          };
        },
        if fine then ok tt else err log_not_closed,
      )

  -- Close. What createSnapshot returns is only printed.
  unfoldable pub close_engine : ℤ → ℤ → Store W → Store W × Result SnapshotError (Unit {0})
  close_engine now made s =
      if s.engine.closed
      then (s, ok tt)
      else close_parts
          (create_snapshot now made (record s { engine = record (s.engine) { closed = true } })).0
