-- ===== src/Storage/Reads.antt =====
-- What a client of internal/storage/engine.go reads after its writes.
use my_etcd.Base.{
  ℕ, ◌≡◌, ◌≢◌, refl, ap, ◌∙◌, false, Option, none, some, Bytes, bytes_eq, arith, Bool-cases,
  split_if, bytes_beq_iff, eq_self, inl, inr, ◌⊎◌,
}
use my_etcd.Base.Words.{ℤ, pos, ◌+ℤ◌, i64, int_eq}
use my_etcd.Base.GoMap.{lookup, insert, lookup-insert}
use my_etcd.Base.Result.{Result, ok, err}
use my_etcd.Types.{Command}
use my_etcd.Storage.Data.{
  EngineError, append_failed, sync_failed, KeyValue, Data, is_expired, written, expiry,
}
use my_etcd.Storage.Engine.{
  WalWrapper, Engine, Exec, next_step, put_command, append_command, sync_log, log_command,
  put_logged, put, get,
}

module _ {W : Type 0} (ops : WalWrapper W) where
  -- Logging a command changes the log alone, and ends well or with an error.
  log_command-cases :
      (cmd : Command) (e : Engine W)
      → (w : W) × ((log_command ops cmd e ≡ (record e { wal = w }, ok tt))
          ⊎ ((x : EngineError) × (log_command ops cmd e ≡ (record e { wal = w }, err x))))
  unfolding log_command append_command sync_log
  log_command-cases cmd e =
      let w = (ops.append cmd e.wal).0 in
      elim (Bool-cases (ops.append cmd e.wal).1) [
        | inl a ↦ elim (Bool-cases (ops.sync w).1) [
          | inl s ↦ ((ops.sync w).0, inl (rw (a, s)))
          | inr s ↦ ((ops.sync w).0, inr (sync_failed, rw (a, s)))
        ]
        | inr a ↦ (w, inr (append_failed, rw a))
      ]

  -- A call that ends without an error, after the log, ran what follows the log.
  pub ok_after_log :
      (cmd : Command) (rest : Exec W (Unit {0})) (e : Engine W)
      → (next_step (log_command ops cmd e) (λ u. rest)).1 ≡ ok tt
      → (w : W) × (next_step (log_command ops cmd e) (λ u. rest) ≡ rest (record e { wal = w }))
  ok_after_log cmd rest e h =
      let (w, ends) = log_command-cases cmd e in
      (w, elim ends [ inl same ↦ rw same | inr (x, same) ↦ absurd (failed (rw same at h)) ])
    where
      failed : {x : EngineError} → ◌≡◌ {A = Result EngineError (Unit {0})} (err x) (ok tt) → ⊥
      failed p = cc

  -- What Put without a TTL does to the data, the leases and the closed flag.
  record Stored (clock : ℕ → ℤ) (key value : Bytes) (e e' : Engine W) : Type 0 where
    data_lem :
        e'.data_map
        ≡ insert key (written (clock 1) key value (pos 0) (lookup key e.data_map)) e.data_map
    leases_lem : e'.lease_manager ≡ e.lease_manager
    open_lem : e'.closed ≡ false

  put_stores :
      (clock : ℕ → ℤ) (key value : Bytes) (e : Engine W)
      → (put ops clock key value (pos 0) e).1 ≡ ok tt
      → Stored clock key value e (put ops clock key value (pos 0) e).0
  unfolding put put_logged
  put_stores clock key value e =
      split_if
        (λ (r : Engine W × Result EngineError (Unit {0})).
          r.1 ≡ ok tt → Stored clock key value e r.0)
        e.closed _ _ (λ c h. absurd (cc h))
        (λ c h.
          let (w, same) =
            ok_after_log (put_command (clock 0) key value) (put_logged ops clock key value (pos 0))
              e h in
          rw same (record { data_lem = refl; leases_lem = refl; open_lem = c }))

  -- A key stored by a Put without a TTL has the value, no expiry, and the next version.
  written_plain :
      (now later : ℤ) (key value : Bytes) (found : Option KeyValue)
      → ((written now key value (pos 0) found).value ≡ value)
        × (is_expired later (written now key value (pos 0) found) ≡ false)
        × ((written now key value (pos 0) found).version
            ≡ (elim found [ none ↦ pos 1 | some old ↦ i64 (old.version +ℤ pos 1) ]))
  unfolding written is_expired expiry
  written_plain now later key value none = (refl, refl, refl)
  written_plain now later key value (some old) = (refl, refl, refl)

  -- Get on an open engine whose data has the key, not expired.
  get_found :
      (now : ℤ) (key : Bytes) (kv : KeyValue) (e : Engine W)
      → e.closed ≡ false
      → lookup key e.data_map ≡ some kv
      → is_expired now kv ≡ false
      → (get ops now key e).0 ≡ ok kv
  unfolding get
  get_found now key kv e o there live = rw (o, there, live)

  -- Get reads the closed flag and the key's entry only.
  get_same :
      (now : ℤ) (key : Bytes) (e e' : Engine W)
      → e.closed ≡ false
      → e'.closed ≡ false
      → lookup key e'.data_map ≡ lookup key e.data_map
      → (get ops now key e').0 ≡ (get ops now key e).0
  unfolding get
  get_same now key e e' o o' same = ground (arith, o, o', same)

  -- Right after a Put without a TTL that returned no error, with no other call or clean-up between, Get
  -- returns the value, at any reading of the clock, with a version one up on the one before, or 1 for a
  -- new key.
  pub get-put :
      (clock : ℕ → ℤ) (now : ℤ) (key value : Bytes) (e : Engine W)
      → (put ops clock key value (pos 0) e).1 ≡ ok tt
      → (kv : KeyValue) × ((get ops now key (put ops clock key value (pos 0) e).0).0 ≡ ok kv)
        × (kv.value ≡ value)
        × (kv.version ≡ (elim (lookup key e.data_map) [
          | none ↦ pos 1
          | some old ↦ i64 (old.version +ℤ pos 1)
        ]))
  get-put clock now key value e h =
      let s = put_stores clock key value e h in
      let kv = written (clock 1) key value (pos 0) (lookup key e.data_map) in
      let (v, live, version) = written_plain (clock 1) now key value (lookup key e.data_map) in
      (
        kv,
        get_found now key kv (put ops clock key value (pos 0) e).0 s.open_lem
            (rw s.data_lem (ground (arith, lookup-insert key key kv e.data_map, eq_self key))) live,
        v,
        version,
      )

  -- A Put without a TTL that returned no error does not change what Get answers for another key of an
  -- open engine.
  pub get-put_other :
      (clock : ℕ → ℤ) (now : ℤ) (key other value : Bytes) (e : Engine W)
      → (put ops clock key value (pos 0) e).1 ≡ ok tt
      → e.closed ≡ false
      → key ≢ other
      → (get ops now other (put ops clock key value (pos 0) e).0).0 ≡ (get ops now other e).0
  get-put_other clock now key other value e h o ne =
      let s = put_stores clock key value e h in
      let kv = written (clock 1) key value (pos 0) (lookup key e.data_map) in
      let same : lookup other (insert key kv e.data_map) ≡ lookup other e.data_map =
        ground (arith, lookup-insert key other kv e.data_map, bytes_beq_iff key other) in
      get_same now other e (put ops clock key value (pos 0) e).0 o s.open_lem
        (ap (λ (d : Data). lookup other d) s.data_lem ∙ same)
