-- ===== src/Wal/Segments.antt =====
-- The directory of segment files of internal/wal/wal.go, in the order of os.ReadDir: by name. A file
-- wal-%016d-%016d is named by its two numbers, whose order by index, then term is that of the names
-- below 10^16. Files of other names, which listSegments skips, are left out.
use my_etcd.Base.{ℕ, Bool, ◌&&◌, ◌||◌, List, [], ◌∷◌, ◌++◌, Bytes, ltb, ◌==◌, nat_eq, if◌then◌else◌}
use my_etcd.Base.Result.{Result, ok, err}
use my_etcd.Wal.Frames.{Codec, WalRecord, WalError, read_segment, prepend}

-- WALSegment: the numbers of the name, and the file's bytes.
pub record WalSegment : Type 0 where
  pub index : ℕ
  pub term : ℕ
  pub content : Bytes

abbrev pub FileName : Type 0
FileName = ℕ × ℕ

abbrev pub name_of : WalSegment → FileName
name_of s = (s.index, s.term)

abbrev pub same_name : FileName → FileName → Bool
same_name a b = a.0 == b.0 && a.1 == b.1

abbrev pub before : FileName → FileName → Bool
before a b = ltb a.0 b.0 || (a.0 == b.0 && ltb a.1 b.1)

-- os.OpenFile with O_CREATE: a file that is there stays as it is.
unfoldable pub open_file : FileName → List WalSegment → List WalSegment
open_file name [] = record { index = name.0; term = name.1; content = [] } ∷ []
open_file name (s ∷ dir) =
    let rest = open_file name dir in
    if same_name name (name_of s)
    then s ∷ dir
    else if before name (name_of s)
    then record { index = name.0; term = name.1; content = [] } ∷ s ∷ dir
    else s ∷ rest

-- A write to a file that is open with O_APPEND.
unfoldable pub append_file : FileName → Bytes → List WalSegment → List WalSegment
append_file name bytes [] = []
append_file name bytes (s ∷ dir) =
    let rest = append_file name bytes dir in
    if same_name name (name_of s) then record s { content = s.content ++ bytes } ∷ dir else s ∷ rest

-- The loop of Truncate: the segments whose index is greater are removed.
unfoldable pub remove_above : ℕ → List WalSegment → List WalSegment
remove_above index [] = []
remove_above index (s ∷ dir) =
    let rest = remove_above index dir in if ltb index s.index then rest else s ∷ rest

-- The loop of ReadAll over the segments.
unfoldable pub read_segments : Codec → List WalSegment → Result WalError (List WalRecord)
read_segments c [] = ok []
read_segments c (s ∷ dir) = elim (read_segment c s.content) [
  | err x ↦ err x
  | ok rs ↦ prepend rs (read_segments c dir)
]
