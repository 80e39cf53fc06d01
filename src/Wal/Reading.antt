-- ===== src/Wal/Reading.antt =====
-- The reader of segment files of internal/wal/wal.go on what the writer wrote, whole or torn.
use my_etcd.Base.{
  ℕ, zero, suc, ◌+◌, ◌*◌, ◌/◌, ◌%◌, ◌≤◌, ◌<◌, ◌≡◌, refl, sym, ap, subst, ◌∙◌, some, List, [], ◌∷◌,
  ◌++◌, Bytes, length, take, drop, nat_eq, arith, append_assoc, append-nil, length-append,
  split_option, eq_self,
}
use my_etcd.Base.Result.{Result, ok, err}
use my_etcd.Types.{Command}
use my_etcd.Wal.Frames.{
  WalRecord, Codec, WalError, binary_write, binary_read, read_full, frame, seal, check, prepend,
  read_record, read_records, read_segment,
}

-- What the log relies on of encoding/json: a record whose command is of the kind `kept` is read as it
-- was written, and its JSON is shorter than 2^32 bytes. JSON keeps no key that is not UTF-8.
pub record IsCodec (c : Codec) (kept : Command → Type 0) : Type 0 where
  pub round_trip :
      (r : WalRecord) (bytes : Bytes)
      → kept r.command
      → c.marshal r ≡ some bytes
      → c.unmarshal bytes ≡ some r
  pub short :
      (r : WalRecord) (bytes : Bytes)
      → kept r.command
      → c.marshal r ≡ some bytes
      → length bytes < 4294967296

-- A length that the writer wrote is read again.
binary_read-frame :
    (bytes rest : Bytes)
    → length bytes < 4294967296
    → binary_read (frame bytes ++ rest) ≡ ok (length bytes, bytes ++ rest)
unfolding binary_read binary_write frame
binary_read-frame bytes rest h =
    let v = length bytes % 4294967296 in
    let same : v / 16777216 % 256 * 16777216
          + v / 65536 % 256 * 65536
          + v / 256 % 256 * 256
          + v % 256
        ≡ length bytes =
      omega arith in
    ap (λ (n : ℕ). ok (n, bytes ++ rest)) same

take-append_all : (xs rest : Bytes) → take (length xs) (xs ++ rest) ≡ xs
take-append_all [] rest = refl
take-append_all (x ∷ xs) rest = ap (λ (t : Bytes). x ∷ t) (take-append_all xs rest)

drop-append_all : (xs rest : Bytes) → drop (length xs) (xs ++ rest) ≡ rest
drop-append_all [] rest = refl
drop-append_all (x ∷ xs) rest = drop-append_all xs rest

read_full-append : (xs rest : Bytes) → read_full (length xs) (xs ++ rest) ≡ ok (xs, rest)
unfolding read_full
read_full-append [] rest = refl
read_full-append (x ∷ xs) rest =
    ground (arith, length-append xs rest, take-append_all xs rest, drop-append_all xs rest)

-- The bytes are those of a record, short enough for its length, that passes the reader's test.
pub record IsRecord (c : Codec) (r : WalRecord) (bytes : Bytes) : Type 0 where
  pub short : length bytes < 4294967296
  pub passes : check c bytes ≡ ok r

-- A record as Append makes it passes the reader's test.
pub record IsSealed (c : Codec) (r sealed : WalRecord) (bytes : Bytes) : Type 0 where
  pub is_record : IsRecord c sealed bytes
  pub same_command : sealed.command ≡ r.command
  pub same_index : sealed.index ≡ r.index

pub seal-IsSealed :
    (c : Codec) (kept : Command → Type 0) (r sealed : WalRecord) (bytes : Bytes)
    → IsCodec c kept
    → kept r.command
    → seal c (record r { checksum = 0 }) ≡ ok (sealed, bytes)
    → IsSealed c r sealed bytes
unfolding seal check
seal-IsSealed c kept r sealed bytes codec k =
    split_option
      (λ (x : Result WalError (WalRecord × Bytes)).
        x ≡ ok (sealed, bytes) → IsSealed c r sealed bytes)
      (c.marshal (record r { checksum = 0 })) _ _ (λ n e. absurd (cc e))
      (λ plain first.
        let made = record r { checksum = c.crc32 plain } in
        split_option
          (λ (x : Result WalError (WalRecord × Bytes)).
            x ≡ ok (sealed, bytes) → IsSealed c r sealed bytes)
          (c.marshal made) _ _ (λ n e. absurd (cc e))
          (λ written second e.
            let made_same : made ≡ sealed = cc e in
            let written_same : written ≡ bytes = cc e in
            let read_back = codec.round_trip made written k second in
            let test : check c written ≡ ok made =
              ground (arith, read_back, first, eq_self (c.crc32 plain)) in
            record {
              is_record = record {
                short =
                    subst (λ (b : Bytes). length b < 4294967296) written_same
                      (codec.short made written k second);
                passes =
                    subst (λ (b : Bytes). check c b ≡ ok sealed) written_same
                      (test ∙ ap (λ (x : WalRecord). ok x) made_same);
              };
              same_command = ap (λ (x : WalRecord). x.command) (sym made_same);
              same_index = ap (λ (x : WalRecord). x.index) (sym made_same);
            }))

-- The content of a file is that of the records.
abbrev pub Holds : Codec → List WalRecord → Bytes → Type 0
Holds c [] content = content ≡ []
Holds c (r ∷ rs) content =
    (bytes : Bytes) × (rest : Bytes) × (content ≡ frame bytes ++ rest)
    × IsRecord c r bytes
    × Holds c rs rest

-- One round of the reader.
read_record-frame :
    (c : Codec) (r : WalRecord) (bytes rest : Bytes)
    → IsRecord c r bytes
    → read_record c (frame bytes ++ rest) ≡ ok (r, rest)
unfolding read_record
read_record-frame c r bytes rest h =
    ground (arith, binary_read-frame bytes rest h.short, read_full-append bytes rest, h.passes)

read_round :
    (c : Codec) (r : WalRecord) (b : ℕ) (input more : Bytes) (fuel : ℕ)
    → read_record c (b ∷ input) ≡ ok (r, more)
    → read_records c (suc fuel) (b ∷ input) ≡ prepend (r ∷ []) (read_records c fuel more)
unfolding read_records
read_round c r b input more fuel p =
    ap
      (λ (x : Result WalError (WalRecord × Bytes)).
        elim x as (λ _. Result WalError (List WalRecord)) [
          | err y ↦ err y
          | ok (q, left) ↦ prepend (q ∷ []) (read_records c fuel left)
        ])
      p

read_records-frame :
    (c : Codec) (r : WalRecord) (bytes rest : Bytes) (fuel : ℕ)
    → IsRecord c r bytes
    → read_records c (suc fuel) (frame bytes ++ rest) ≡ prepend (r ∷ []) (read_records c fuel rest)
unfolding frame binary_write
read_records-frame c r bytes rest fuel h =
    read_round c r _ _ rest fuel (read_record-frame c r bytes rest h)

prepend-prepend :
    (xs ys : List WalRecord) (r : Result WalError (List WalRecord))
    → prepend xs (prepend ys r) ≡ prepend (xs ++ ys) r
prepend-prepend xs ys (ok zs) = ap (λ (t : List WalRecord). ok t) (sym (append_assoc xs ys zs))
prepend-prepend xs ys (err x) = refl

pub prepend-nil : (r : Result WalError (List WalRecord)) → prepend [] r ≡ r
prepend-nil (ok zs) = refl
prepend-nil (err x) = refl

pub length-frame : (bytes : Bytes) → length (frame bytes) ≡ 4 + length bytes
unfolding frame binary_write
length-frame bytes = omega arith

-- Reading past the records of a file, with enough rounds, comes to what stands behind them with
-- enough rounds.
pub read_records-past :
    (c : Codec) (rs : List WalRecord) (content tail : Bytes) (fuel : ℕ)
    → Holds c rs content
    → length (content ++ tail) ≤ fuel
    → (left : ℕ) × (length tail ≤ left)
      × (read_records c fuel (content ++ tail) ≡ prepend rs (read_records c left tail))
read_records-past c [] content tail fuel h enough =
    subst
      (λ (x : Bytes).
        length (x ++ tail) ≤ fuel
        → (left : ℕ) × (length tail ≤ left)
          × (read_records c fuel (x ++ tail) ≡ prepend [] (read_records c left tail)))
      (sym h) (λ e. (fuel, e, sym (prepend-nil (read_records c fuel tail)))) enough
read_records-past c (r ∷ rs) content tail zero (bytes, rest, same, good, h) enough = absurd (
    omega (
      arith,
      ap (λ (x : Bytes). length x) same,
      length-append (frame bytes) rest,
      length-append content tail,
      length-frame bytes,
    ))
read_records-past c (r ∷ rs) content tail (suc fuel) (bytes, rest, same, good, h) enough =
    let (left, room, past) = read_records-past c rs rest tail fuel h (
      omega (
        arith,
        ap (λ (x : Bytes). length x) same,
        length-append (frame bytes) rest,
        length-append content tail,
        length-append rest tail,
        length-frame bytes,
      )) in
    (
      left,
      room,
      ap (λ (x : Bytes). read_records c (suc fuel) x)
            (ap (λ (x : Bytes). x ++ tail) same ∙ append_assoc (frame bytes) rest tail)
          ∙ read_records-frame c r bytes (rest ++ tail) fuel good
          ∙ ap (prepend (r ∷ [])) past
          ∙ prepend-prepend (r ∷ []) rs (read_records c left tail),
    )

-- A file that holds the records is read as them.
pub read_segment-Holds :
    (c : Codec) (rs : List WalRecord) (content : Bytes)
    → Holds c rs content
    → read_segment c content ≡ ok rs
unfolding read_segment
read_segment-Holds c rs content h =
    let (left, room, past) =
      read_records-past c rs content [] (length content) h
        (omega (arith, length-append content [])) in
    ap (λ (x : Bytes). read_records c (length content) x) (sym (append-nil content))
    ∙ past
    ∙ nothing left
  where
    nothing : (left : ℕ) → prepend rs (read_records c left []) ≡ ok rs
    nothing zero = unfold read_records in ap (λ (t : List WalRecord). ok t) (append-nil rs)
    nothing (suc n) = unfold read_records in ap (λ (t : List WalRecord). ok t) (append-nil rs)

-- A record written behind the records of a file.
pub Holds-append :
    (c : Codec) (rs : List WalRecord) (content : Bytes) (r : WalRecord) (bytes : Bytes)
    → Holds c rs content
    → IsRecord c r bytes
    → Holds c (rs ++ (r ∷ [])) (content ++ frame bytes)
Holds-append c [] content r bytes h good =
    (bytes, [], ap (λ (x : Bytes). x ++ frame bytes) h ∙ sym (append-nil (frame bytes)), good, refl)
Holds-append c (r' ∷ rs) content r bytes (b, rest, same, good', h) good = (
  b,
  rest ++ frame bytes,
  ap (λ (x : Bytes). x ++ frame bytes) same ∙ append_assoc (frame b) rest (frame bytes),
  good',
  Holds-append c rs rest r bytes h good,
)
