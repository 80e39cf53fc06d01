-- ===== src/Wal/Log.antt =====
-- The methods of the WAL of internal/wal/wal.go, each whole under w.mu.
use my_etcd.Base.{
  ℕ, ◌+◌, Bool, true, false, List, [], ◌∷◌, Bytes, length, take, last_of, ◌==◌, nat_eq,
  if◌then◌else◌,
}
use my_etcd.Base.Words.{ℤ, pos, ltb_ℤ, u64}
use my_etcd.Base.Result.{Result, ok, err}
use my_etcd.Types.{Command}
use my_etcd.Wal.Frames.{
  Codec, WalRecord, WalError, wal_closed, write_failed, segment_failed, frame, seal,
}
use my_etcd.Wal.Segments.{
  WalSegment, FileName, name_of, open_file, append_file, remove_above, read_segments,
}

-- `dir` is the disk, `file` the open file. `failed` is the state of a writer that met an error: a
-- bufio.Writer keeps its error, so each later write fails until the writer is replaced.
pub record Wal : Type 0 where
  pub dir : List WalSegment
  pub file : FileName
  pub index : ℕ  -- uint64
  pub term : ℕ  -- uint64
  pub closed : Bool
  pub file_size : ℕ
  pub max_size : ℤ  -- int64
  pub failed : Bool

-- How the disk behaves in an Append: well, or the new segment cannot be opened, or only so many bytes
-- of the record reach the file before an error.
pub data Disk : Type 0 where
  works : Disk
  no_segment : Disk
  torn : ℕ → Disk

abbrev pub Answer : Type 0
Answer = Wal × Result WalError (Unit {0})

-- createNewSegment, where the disk works. The size starts at 0, also for a file that is there.
unfoldable pub create_new_segment : ℕ → ℕ → Wal → Wal
create_new_segment index term w = record w {
  dir = open_file (index, term) w.dir;
  file = (index, term);
  index = index;
  term = term;
  file_size = 0;
  failed = false;
}

-- loadLatestSegment: the last file, or a first one.
unfoldable pub load_latest_segment : Wal → Wal
load_latest_segment w = elim w.dir [
  | [] ↦ create_new_segment 0 0 w
  | s ∷ dir ↦
      let latest = last_of s dir in
      record w {
        file = name_of latest;
        index = latest.index;
        term = latest.term;
        file_size = length latest.content;
        failed = false;
      }
]

-- NewWAL, on the files that are there.
unfoldable pub new_wal : ℤ → List WalSegment → Wal
new_wal max_size dir = load_latest_segment (record {
  dir = dir;
  file = (0, 0);
  index = 0;
  term = 0;
  closed = false;
  file_size = 0;
  max_size = max_size;
  failed = false;
})

-- The write of writeRecord: the whole frame, or what reaches the file before an error.
unfoldable pub write_frame : Disk → Bytes → Wal → Answer
write_frame (torn n) bytes w = (
  record w { dir = append_file w.file (take n (frame bytes)) w.dir; failed = true },
  err write_failed,
)
write_frame disk bytes w = (
  record w {
    dir = append_file w.file (frame bytes) w.dir;
    file_size = w.file_size + (4 + length bytes);
  },
  ok tt,
)

-- writeRecord: a new segment first, where the bytes would pass the maximal size.
unfoldable pub write_record : Disk → Bytes → Wal → Answer
write_record disk bytes w =
    if ltb_ℤ w.max_size (pos (w.file_size + length bytes))
    then (if w.failed then (w, err segment_failed) else elim disk [
      | no_segment ↦ (record w { failed = true }, err segment_failed)
      | works ↦ write_frame works bytes (create_new_segment w.index w.term w)
      | torn n ↦ write_frame (torn n) bytes (create_new_segment w.index w.term w)
    ])
    else if w.failed
    then (w, err write_failed)
    else write_frame disk bytes w

-- Append of a record that has a command and no checksum yet, as the engine makes them.
unfoldable pub append : Codec → ℤ → Disk → Command → Wal → Answer
append c now disk command w =
    if w.closed
    then (w, err wal_closed)
    else (elim (seal c (record {
      index = u64 (w.index + 1);
      term = w.term;
      command = command;
      checksum = 0;
      timestamp = now;
    })) [
      | err x ↦ (w, err x)
      | ok (r, bytes) ↦
          let (m, result) = write_record disk bytes w in
          elim result [
            | err x ↦ (m, err x)
            | ok u ↦ (record m { index = u64 (m.index + 1) }, ok tt)
          ]
    ])

-- ReadAll
unfoldable pub read_all : Codec → Wal → Result WalError (List WalRecord)
read_all c w = if w.closed then err wal_closed else read_segments c w.dir

-- Truncate, where the files can be removed and opened.
unfoldable pub truncate : ℕ → Wal → Answer
truncate index w =
    if w.closed
    then (w, err wal_closed)
    else (load_latest_segment (record w { dir = remove_above index w.dir }), ok tt)

-- Sync, where the disk works.
unfoldable pub sync : Wal → Answer
sync w =
    if w.closed then (w, err wal_closed) else if w.failed then (w, err write_failed) else (w, ok tt)

-- Close: closed after all, with an error if the writer has one.
unfoldable pub close : Wal → Answer
close w =
    if w.closed
    then (w, ok tt)
    else (record w { closed = true }, if w.failed then err write_failed else ok tt)

-- SetTerm, where the disk works.
unfoldable pub set_term : ℕ → Wal → Answer
set_term term w =
    if w.closed
    then (w, err wal_closed)
    else if w.term == term
    then (w, ok tt)
    else if w.failed
    then (w, err segment_failed)
    else (create_new_segment w.index term w, ok tt)
