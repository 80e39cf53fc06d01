-- ===== src/Storage/Swaps.antt =====
-- CompareAndSwap of internal/storage/engine.go.
use my_etcd.Base.{
  ℕ, ◌+◌, ◌≡◌, inl, inr, refl, sym, ap, ◌∙◌, true, false, none, some, [], ◌∷◌, Bytes, bytes_eq,
  ◌==◌, if◌then◌else◌, arith, Bool-cases, split_if, split_option, bytes_beq_iff,
}
use my_etcd.Base.Words.{ℤ, pos}
use my_etcd.Base.GoMap.{lookup, delete}
use my_etcd.Base.Result.{Result, ok, err}
use my_etcd.Storage.Data.{EngineError, cas_failed, Data, is_expired, written}
use my_etcd.Storage.Engine.{
  WalWrapper, Engine, Exec, is_nil, put_command, put_unsafe, compare_and_swap,
}
use my_etcd.Storage.Logging.{value_at, value_at-insert, value_at-delete, value_at-written}
use my_etcd.Storage.Reads.{ok_after_log}

-- The value of the key as a read at `now` sees it; missing and expired keys read as the empty value.
abbrev pub seen : ℤ → Bytes → Data → Bytes
seen now key d = elim (lookup key d) [
  | none ↦ []
  | some kv ↦ if is_expired now kv then [] else kv.value
]

-- The values after a swap: the new one at the key, the others as before.
abbrev pub Swapped : Bytes → Bytes → Data → Data → Type 0
Swapped key new d d' = (j : Bytes) → value_at d' j ≡ (if key == j then some new else value_at d j)

module _ {W : Type 0} (ops : WalWrapper W) (clock : ℕ → ℤ) (key : Bytes) where
  put_unsafe-Swapped :
      (new : Bytes) (e : Engine W)
      → (put_unsafe ops clock key new (pos 0) e).1 ≡ ok tt
      → Swapped key new e.data_map (put_unsafe ops clock key new (pos 0) e).0.data_map
  unfolding put_unsafe
  put_unsafe-Swapped new e h j =
      let (w, same) = ok_after_log ops (put_command (clock 0) key new) _ e h in
      let found = lookup key e.data_map in
      ap (λ (r : Engine W × Result EngineError (Unit {0})). value_at r.0.data_map j) same
      ∙ value_at-insert key j (written (clock 1) key new (pos 0) found) e.data_map
      ∙ ap (λ (v : Bytes). if key == j then some v else value_at e.data_map j)
          (value_at-written (clock 1) key new (pos 0) found)

-- What a swap of one engine's data by another's says: the key was seen as `prev`, and has `new` now.
pub record SwapDone (now : ℤ) (key prev new : Bytes) (d d' : Data) : Type 0 where
  pub was : seen now key d ≡ prev
  pub swapped : Swapped key new d d'

module _ {W : Type 0} (ops : WalWrapper W) (clock : ℕ → ℤ) (key prev new : Bytes) where
  abbrev swap : Exec W (Unit {0})
  swap = put_unsafe ops (λ i. clock (i + 1)) key new (pos 0)

  abbrev Fine : Engine W → Engine W × Result EngineError (Unit {0}) → Type 0
  Fine e r = r.1 ≡ ok tt → SwapDone (clock 0) key prev new e.data_map r.0.data_map

  -- The branches for a key that reads as empty, from the data without the key.
  vacant_lem :
      (e e' : Engine W)
      → seen (clock 0) key e.data_map ≡ []
      → ((j : Bytes) → (key == j) ≡ false → value_at e'.data_map j ≡ value_at e.data_map j)
      → Fine e (if is_nil prev then swap e' else (e', err cas_failed))
  vacant_lem e e' empty kept =
      split_if (Fine e) (is_nil prev) _ _
        (λ n h. record {
          was = empty ∙ sym (nil_lem prev n);
          swapped = λ j.
              put_unsafe-Swapped ops (λ i. clock (i + 1)) key new e' h j
              ∙ elim (Bool-cases (key == j)) [ inl y ↦ rw y refl | inr n' ↦ rw n' (kept j n') ];
        })
        (λ n h. absurd (cc h))
    where
      nil_lem : (b : Bytes) → is_nil b ≡ true → b ≡ []
      nil_lem [] h = refl
      nil_lem (c ∷ b) h = absurd (cc h)

  -- A CompareAndSwap that returns no error found the key with the expected value (the empty value
  -- where the key is missing or expired at the first reading of the clock), and left the key with the
  -- new value and every other key with the value that it had.
  pub compare_and_swap-SwapDone :
      (e : Engine W)
      → (compare_and_swap ops clock key prev new e).1 ≡ ok tt
      → SwapDone
          (clock 0)
          key
          prev
          new
          e.data_map
          (compare_and_swap ops clock key prev new e).0.data_map
  unfolding compare_and_swap
  compare_and_swap-SwapDone e =
      split_if (Fine e) e.closed _ _ (λ c h. absurd (cc h))
        (λ c.
          split_option (Fine e) (lookup key e.data_map) _ _
            (λ gone. vacant_lem e e (ground (arith, gone)) (λ j n. refl))
            (λ kv there.
              split_if (Fine e) (is_expired (clock 0) kv) _ _
                (λ old.
                  vacant_lem e (record e { data_map = delete key e.data_map })
                    (ground (arith, there, old))
                    (λ j n. value_at-delete key j e.data_map ∙ rw n refl))
                (λ live.
                  split_if (Fine e) (kv.value == prev) _ _
                    (λ same h. record {
                      was = ground (arith, there, live, bytes_beq_iff kv.value prev);
                      swapped = put_unsafe-Swapped ops (λ i. clock (i + 1)) key new e h;
                    })
                    (λ other h. absurd (cc h)))))
