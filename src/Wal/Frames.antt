-- ===== src/Wal/Frames.antt =====
-- The records of a segment file of internal/wal/wal.go: a length of four bytes, then a record as JSON
-- that carries a checksum of itself. encoding/json and hash/crc32 are a parameter, `Codec`.
use my_etcd.Base.{
  ℕ, zero, suc, ◌+◌, ◌*◌, ◌/◌, ◌%◌, Option, none, some, List, [], ◌∷◌, ◌++◌, Bytes, length, take,
  drop, ltb, ◌==◌, nat_eq, if◌then◌else◌,
}
use my_etcd.Base.Words.{ℤ}
use my_etcd.Base.Result.{Result, ok, err}
use my_etcd.Types.{Command}

-- types.WALRecord. Index and term are uint64, the checksum uint32.
pub record WalRecord : Type 0 where
  pub index : ℕ
  pub term : ℕ
  pub command : Command
  pub checksum : ℕ
  pub timestamp : ℤ

-- json.Marshal and json.Unmarshal of a record, `none` where they return an error, and
-- crc32.ChecksumIEEE.
pub record Codec : Type 0 where
  pub marshal : WalRecord → Option Bytes
  pub unmarshal : Bytes → Option WalRecord
  pub crc32 : Bytes → ℕ

-- The errors of the log's methods; `out_of_fuel` is no error of Go: the reader ran out of rounds.
pub data WalError : Type 0 where
  wal_closed wal_corrupted : WalError
  marshal_failed unmarshal_failed write_failed segment_failed : WalError
  length_failed data_failed out_of_fuel : WalError

-- What a read of some bytes may meet: nothing left, or fewer than asked for.
pub data ReadError : Type 0 where
  eof unexpected_eof : ReadError

-- binaryWrite
unfoldable pub binary_write : ℕ → Bytes
binary_write v = v / 16777216 % 256 ∷ v / 65536 % 256 ∷ v / 256 % 256 ∷ v % 256 ∷ []

-- binaryRead, of bytes below 256, which share no bits once shifted.
unfoldable pub binary_read : Bytes → Result ReadError (ℕ × Bytes)
binary_read [] = err eof
binary_read (a ∷ b ∷ c ∷ d ∷ rest) = ok (a * 16777216 + b * 65536 + c * 256 + d, rest)
binary_read (a ∷ _) = err unexpected_eof

-- io.ReadFull into a buffer of `n` bytes.
unfoldable pub read_full : ℕ → Bytes → Result ReadError (Bytes × Bytes)
read_full n input =
    if n == 0
    then ok ([], input)
    else if length input == 0
    then err eof
    else if ltb (length input) n
    then err unexpected_eof
    else ok (take n input, drop n input)

-- What writeRecord writes: the length as a uint32, and the bytes.
unfoldable pub frame : Bytes → Bytes
frame bytes = binary_write (length bytes % 4294967296) ++ bytes

-- The record that Append writes, and its JSON: the checksum is that of the JSON with checksum 0.
unfoldable pub seal : Codec → WalRecord → Result WalError (WalRecord × Bytes)
seal c r = elim (c.marshal r) [
  | none ↦ err marshal_failed
  | some plain ↦
      let sealed = record r { checksum = c.crc32 plain } in
      elim (c.marshal sealed) [ none ↦ err marshal_failed | some bytes ↦ ok (sealed, bytes) ]
]

-- The test of one record in readSegment.
unfoldable pub check : Codec → Bytes → Result WalError WalRecord
check c bytes = elim (c.unmarshal bytes) [
  | none ↦ err unmarshal_failed
  | some r ↦ elim (c.marshal (record r { checksum = 0 })) [
    | none ↦ err marshal_failed
    | some plain ↦ if c.crc32 plain == r.checksum then ok r else err wal_corrupted
  ]
]

abbrev pub prepend {ℓ κ} :
    {E : Type ℓ} {A : Type κ} → List A → Result E (List A) → Result E (List A)
prepend xs (ok ys) = ok (xs ++ ys)
prepend xs (err x) = err x

-- One round of readSegment's loop, where the file goes on: a length, that many bytes, and the test.
unfoldable pub read_record : Codec → Bytes → Result WalError (WalRecord × Bytes)
read_record c input = elim (binary_read input) [
  | err x ↦ err length_failed
  | ok (n, rest) ↦ elim (read_full n rest) [
    | err x ↦ err data_failed
    | ok (bytes, more) ↦ elim (check c bytes) [ err x ↦ err x | ok r ↦ ok (r, more) ]
  ]
]

-- The loop of readSegment, which ends with the file. Every record takes four bytes at least.
unfoldable pub read_records : Codec → ℕ → Bytes → Result WalError (List WalRecord)
read_records c fuel [] = ok []
read_records c zero (b ∷ input) = err out_of_fuel
read_records c (suc fuel) (b ∷ input) = elim (read_record c (b ∷ input)) [
  | err x ↦ err x
  | ok (r, more) ↦ prepend (r ∷ []) (read_records c fuel more)
]

-- readSegment
unfoldable pub read_segment : Codec → Bytes → Result WalError (List WalRecord)
read_segment c content = read_records c (length content) content
