-- ===== src/Storage/Answers.antt =====
-- Range of internal/storage/engine.go: what it returns.
use Prim.Native.Nat.{min}
use my_etcd.Base.{
  ℕ, zero, suc, ◌+◌, ◌≤◌, ◌≡◌, ◌≢◌, ◌⊎◌, inl, inr, sym, subst, ◌∙◌, Option, none, some, List, [],
  ◌∷◌, ◌++◌, Bytes, bytes_eq, if◌then◌else◌, length, take, drop, All, arith, Option-cases, eq_self,
  take-append-drop, length-take, length-append, ap,
}
use my_etcd.Base.Words.{ℤ, pos, negsuc}
use my_etcd.Base.GoMap.{lookup, Distinct}
use my_etcd.Storage.Data.{KeyValue, Data}
use my_etcd.Storage.Queries.{sort_keys, keys_between, values_of, limited, range}
use my_etcd.Storage.Ranges.{
  IsAscending, count, in_range, count-keys_between, sort_keys-IsAscending, sort_keys-count,
}

-- The list holds what the data has under each of the keys, in the order of the keys.
abbrev pub ValuesAt : Data → List Bytes → List KeyValue → Type 0
ValuesAt d [] [] = Unit
ValuesAt d (key ∷ keys) (kv ∷ kvs) = (lookup key d ≡ some kv) × ValuesAt d keys kvs
ValuesAt d _ _ = ⊥

-- `shown` items are returned and `left` are not: none is left where the limit is not positive, and
-- otherwise there are no more than the limit, and as many as the limit where one is left.
abbrev pub WithinLimit : ℤ → ℕ → ℕ → Type 0
WithinLimit (pos zero) shown left = left ≡ 0
WithinLimit (pos (suc l)) shown left = (shown ≤ suc l) × ((left ≡ 0) ⊎ (shown ≡ suc l))
WithinLimit (negsuc l) shown left = left ≡ 0

-- What Range promises of its values and its count, for the keys from `low` up to before `high`.
pub record IsAnswer (now : ℤ) (low high : Bytes) (limit : ℤ) (d : Data) (answer : List KeyValue × ℕ)
    : Type 0 where
  pub shown : List Bytes
  pub left : List Bytes
  pub ascending : IsAscending (shown ++ left)
  pub each_once :
      (k : Bytes)
      → count k (shown ++ left) ≡ (if in_range now low high k (lookup k d) then 1 else 0)
  pub values : ValuesAt d shown answer.0
  pub within : WithinLimit limit (length shown) (length left)
  pub total : answer.1 ≡ length (shown ++ left)

-- What holds of every key that the list has holds of all keys of the list.
All-counted :
    (P : Bytes → Type 0) (xs : List Bytes) → ((k : Bytes) → count k xs ≢ 0 → P k) → All P xs
All-counted P [] h = tt
All-counted P (x ∷ xs) h = (
  h x (λ e. absurd (ground (arith, eq_self x))),
  All-counted P xs (λ k c. h k (λ e. c (omega arith))),
)

All-take : (P : Bytes → Type 0) (n : ℕ) (xs : List Bytes) → All P xs → All P (take n xs)
All-take P zero xs h = tt
All-take P (suc n) [] h = tt
All-take P (suc n) (x ∷ xs) h = (h.0, All-take P n xs h.1)

values_of-ValuesAt :
    (d : Data) (keys : List Bytes)
    → All (λ k. lookup k d ≢ none) keys
    → ValuesAt d keys (values_of keys d)
unfolding values_of
values_of-ValuesAt d [] h = tt
values_of-ValuesAt d (key ∷ keys) h = elim (Option-cases (lookup key d)) [
  | inl gone ↦ absurd (h.0 gone)
  | inr (kv, there) ↦
      subst
        (λ (o : Option KeyValue).
          ValuesAt d (key ∷ keys)
            (elim o [ none ↦ values_of keys d | some v ↦ v ∷ values_of keys d ]))
        (sym there) (there, values_of-ValuesAt d keys h.1)
]

limited-WithinLimit :
    (limit : ℤ) (shown left : ℕ)
    → shown ≡ min (limited limit (shown + left)) (shown + left)
    → WithinLimit limit shown left
unfolding limited
limited-WithinLimit (pos zero) shown left e = ground arith
limited-WithinLimit (pos (suc l)) shown left e = ground arith
limited-WithinLimit (negsuc l) shown left e = ground arith

-- Range with an end, on data whose keys are distinct: its values are those of keys in ascending order,
-- which are, followed by the keys that the limit leaves out, the live keys from `key` up to before the
-- end, each once; none is left out where the limit is not positive, and otherwise only those beyond as
-- many as the limit; the count is that of all of them, also of those left out.
pub range_lem :
    (now : ℤ) (key : Bytes) (c : ℕ) (end : Bytes) (limit : ℤ) (d : Data)
    → Distinct d
    → IsAnswer now key (c ∷ end) limit d (range now key (c ∷ end) limit d)
unfolding range
range_lem now key c end limit d u =
    let found = keys_between now key (c ∷ end) d in
    let keys = sort_keys (length found) found in
    let n = limited limit (length keys) in
    let all : take n keys ++ drop n keys ≡ keys = take-append-drop n keys in
    let once : (k : Bytes)
        → count k keys ≡ (if in_range now key (c ∷ end) k (lookup k d) then 1 else 0) =
      λ k. sort_keys-count k (length found) found ∙ count-keys_between now key (c ∷ end) k d u in
    let size : length keys ≡ length (take n keys) + length (drop n keys) =
      ap (λ (xs : List Bytes). length xs) (sym all) ∙ length-append (take n keys) (drop n keys) in
    record {
      shown = take n keys;
      left = drop n keys;
      ascending =
          subst IsAscending (sym all) (sort_keys-IsAscending (length found) found (omega arith));
      each_once = λ k. ap (λ (xs : List Bytes). count k xs) all ∙ once k;
      values = values_of-ValuesAt d (take n keys) (
          All-take (λ k. lookup k d ≢ none) n keys
            (All-counted (λ k. lookup k d ≢ none) keys
              (λ k counted gone. counted (
                once k
                ∙ ap (λ (o : Option KeyValue). if in_range now key (c ∷ end) k o then 1 else 0)
                    gone))));
      within =
          limited-WithinLimit limit (length (take n keys)) (length (drop n keys))
            (length-take n keys ∙ ap (λ (m : ℕ). min (limited limit m) m) size);
      total = sym (ap (λ (xs : List Bytes). length xs) all);
    }
