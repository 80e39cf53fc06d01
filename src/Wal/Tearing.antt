-- ===== src/Wal/Tearing.antt =====
-- The reader of segment files of internal/wal/wal.go on a record that was cut short.
use my_etcd.Base.{
  ℕ, zero, suc, ◌+◌, ◌*◌, ◌/◌, ◌%◌, ◌≤◌, ◌<◌, ◌≡◌, refl, ap, ◌∙◌, List, [], ◌∷◌, ◌++◌, Bytes,
  length, take, length-take, nat_eq, arith, inl, inr, ◌⊎◌,
}
use my_etcd.Base.Result.{Result, err}
use my_etcd.Wal.Frames.{
  WalRecord, Codec, WalError, data_failed, length_failed, ReadError, eof, unexpected_eof,
  binary_write, binary_read, read_full, frame, prepend, read_record, read_records, read_segment,
}
use my_etcd.Wal.Reading.{Holds, read_records-past, length-frame}

-- The start of a record is not read as a record.
abbrev Stops : Result WalError (WalRecord × Bytes) → Type 0
Stops r = (r ≡ err length_failed) ⊎ (r ≡ err data_failed)

read_full-short :
    (k : ℕ) (input : Bytes) → length input < k → (x : ReadError) × (read_full k input ≡ err x)
unfolding read_full
read_full-short k [] h = (eof, ground arith)
read_full-short k (b ∷ input) h = (unexpected_eof, ground arith)

read_record-torn :
    (c : Codec) (bytes : Bytes) (n : ℕ)
    → length bytes < 4294967296
    → 0 < n
    → n < 4 + length bytes
    → Stops (read_record c (take n (frame bytes)))
unfolding read_record frame binary_write binary_read
read_record-torn c bytes zero short some_ not_all = absurd (omega arith)
read_record-torn c bytes (suc zero) short some_ not_all = inl refl
read_record-torn c bytes (suc (suc zero)) short some_ not_all = inl refl
read_record-torn c bytes (suc (suc (suc zero))) short some_ not_all = inl refl
read_record-torn c bytes (suc (suc (suc (suc n)))) short some_ not_all =
    let v = length bytes % 4294967296 in
    let k =
      v / 16777216 % 256 * 16777216 + v / 65536 % 256 * 65536 + v / 256 % 256 * 256 + v % 256 in
    let (x, stops) = read_full-short k (take n bytes) (omega (arith, length-take n bytes)) in
    inr (ground (arith, stops))

-- A file that ends in the start of a record, at least one byte and not all of it, cannot be read.
pub read_segment-torn :
    (c : Codec) (rs : List WalRecord) (content bytes : Bytes) (n : ℕ)
    → Holds c rs content
    → length bytes < 4294967296
    → 0 < n
    → n < 4 + length bytes
    → (x : WalError) × (read_segment c (content ++ take n (frame bytes)) ≡ err x)
unfolding read_segment
read_segment-torn c rs content bytes n h short some_ not_all =
    let tail = take n (frame bytes) in
    let (left, room, past) =
      read_records-past c rs content tail (length (content ++ tail)) h (omega arith) in
    let (x, stops) =
      blocked tail left room (omega (arith, length-take n (frame bytes), length-frame bytes))
        (read_record-torn c bytes n short some_ not_all) in
    (x, past ∙ ap (prepend rs) stops)
  where
    blocked :
        (tail : Bytes) (left : ℕ)
        → length tail ≤ left
        → 0 < length tail
        → Stops (read_record c tail)
        → (x : WalError) × (read_records c left tail ≡ err x)
    blocked [] left room more stops = absurd (omega arith)
    blocked (b ∷ tail) zero room more stops = absurd (omega arith)
    blocked (b ∷ tail) (suc left) room more stops = elim stops [
      | inl e ↦ (length_failed, unfold read_records in ground (arith, e))
      | inr e ↦ (data_failed, unfold read_records in ground (arith, e))
    ]
