-- ===== src/Wal/Ending.antt =====
-- The reader of segment files of internal/wal/wal.go ends on any bytes.
use my_etcd.Base.{
  ℕ, zero, suc, ◌+◌, ◌≤◌, ◌≡◌, ◌≢◌, sym, subst, List, [], ◌∷◌, Bytes, length, length-drop, ◌==◌,
  nat_eq, arith, split_if, split_option, inl, inr,
}
use my_etcd.Base.Result.{Result, ok, err, Result-cases}
use my_etcd.Wal.Frames.{
  WalRecord, Codec, WalError, data_failed, length_failed, out_of_fuel, ReadError, binary_read,
  read_full, check, prepend, read_record, read_records, read_segment,
}

binary_read-takes :
    (input rest : Bytes) (n : ℕ) → binary_read input ≡ ok (n, rest) → length rest + 4 ≡ length input
unfolding binary_read
binary_read-takes [] rest n e = absurd (cc e)
binary_read-takes (a ∷ []) rest n e = absurd (cc e)
binary_read-takes (a ∷ b ∷ []) rest n e = absurd (cc e)
binary_read-takes (a ∷ b ∷ c ∷ []) rest n e = absurd (cc e)
binary_read-takes (a ∷ b ∷ c ∷ d ∷ input) rest n e = ground arith

-- What a round of the reader comes to: a record, with four bytes at least taken, or an error of Go.
abbrev Taken : Bytes → Result WalError (WalRecord × Bytes) → Type 0
Taken input (ok (r, more)) = length more + 4 ≤ length input
Taken input (err x) = x ≢ out_of_fuel

read_full-takes :
    (n : ℕ) (input bytes more : Bytes)
    → read_full n input ≡ ok (bytes, more)
    → length more ≤ length input
unfolding read_full
read_full-takes n input bytes more e = ground (arith, length-drop n input)

check-Taken :
    (c : Codec) (input bytes more : Bytes)
    → length more + 4 ≤ length input
    → Taken input (elim (check c bytes) [ err x ↦ err x | ok r ↦ ok (r, more) ])
unfolding check
check-Taken c input bytes more h =
    split_option
      (λ (x : Result WalError WalRecord).
        Taken input (elim x [ err y ↦ err y | ok r ↦ ok (r, more) ]))
      (c.unmarshal bytes) _ _ (λ n p. cc)
      (λ r e.
        split_option
          (λ (x : Result WalError WalRecord).
            Taken input (elim x [ err y ↦ err y | ok r ↦ ok (r, more) ]))
          (c.marshal (record r { checksum = 0 })) _ _ (λ n p. cc)
          (λ plain f.
            split_if
              (λ (x : Result WalError WalRecord).
                Taken input (elim x [ err y ↦ err y | ok r ↦ ok (r, more) ]))
              (c.crc32 plain == r.checksum) _ _ (λ y. h) (λ n p. cc)))

read_record-Taken : (c : Codec) (input : Bytes) → Taken input (read_record c input)
unfolding read_record
read_record-Taken c input = elim (Result-cases (binary_read input)) [
  | inr (x, e) ↦
      subst (λ (y : Result ReadError (ℕ × Bytes)). Taken input (after y)) (sym e) (λ p. cc)
  | inl ((n, rest), e) ↦
      subst (λ (y : Result ReadError (ℕ × Bytes)). Taken input (after y)) (sym e)
        (elim (Result-cases (read_full n rest)) [
          | inr (x, e2) ↦
              subst (λ (y : Result ReadError (Bytes × Bytes)). Taken input (inner y)) (sym e2)
                (λ p. cc)
          | inl ((bytes, more), e2) ↦
              subst (λ (y : Result ReadError (Bytes × Bytes)). Taken input (inner y)) (sym e2)
                (check-Taken c input bytes more (
                  omega (
                    arith,
                    binary_read-takes input rest n e,
                    read_full-takes n rest bytes more e2,
                  )))
        ])
]
  where
    inner : Result ReadError (Bytes × Bytes) → Result WalError (WalRecord × Bytes)
    inner y = elim y [
      | err x ↦ err data_failed
      | ok (bytes, more) ↦ elim (check c bytes) [ err x ↦ err x | ok r ↦ ok (r, more) ]
    ]

    after : Result ReadError (ℕ × Bytes) → Result WalError (WalRecord × Bytes)
    after y = elim y [ err x ↦ err length_failed | ok (n, rest) ↦ inner (read_full n rest) ]

-- The reader has rounds enough on any bytes.
read_records-ends :
    (c : Codec) (fuel : ℕ) (input : Bytes)
    → length input ≤ fuel
    → read_records c fuel input ≢ err out_of_fuel
unfolding read_records
read_records-ends c fuel [] h = λ e. cc
read_records-ends c zero (b ∷ input) h = absurd (omega arith)
read_records-ends c (suc fuel) (b ∷ input) h =
    tested (λ more k. read_records-ends c fuel more k) (read_record c (b ∷ input))
      (read_record-Taken c (b ∷ input))
  where
    kept :
        (r : WalRecord) (x : Result WalError (List WalRecord))
        → x ≢ err out_of_fuel
        → prepend (r ∷ []) x ≢ err out_of_fuel
    kept r (ok rs) t e = cc
    kept r (err x) t e = t e

    tested :
        ((more : Bytes) → length more ≤ fuel → read_records c fuel more ≢ err out_of_fuel)
        → (x : Result WalError (WalRecord × Bytes)) → Taken (b ∷ input) x
        → (elim x as (λ _. Result WalError (List WalRecord)) [
          | err y ↦ err y
          | ok (r, more) ↦ prepend (r ∷ []) (read_records c fuel more)
        ])
          ≢ err out_of_fuel
    tested rest (err x) t e = t (cc e)
    tested rest (ok (r, more)) t e = kept r (read_records c fuel more) (rest more (omega arith)) e

-- readSegment ends on any bytes: its loop never runs out of rounds.
pub read_segment-ends : (c : Codec) (content : Bytes) → read_segment c content ≢ err out_of_fuel
unfolding read_segment
read_segment-ends c content = read_records-ends c (length content) content (omega arith)
