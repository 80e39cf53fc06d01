-- ===== src/Storage/Batches.antt =====
-- BatchPut of internal/storage/engine.go against its log.
use my_etcd.Base.{
  ℕ, ◌+◌, ◌≡◌, refl, sym, ap, ◌∙◌, List, [], ◌∷◌, ◌++◌, Bytes, bytes_eq, append_assoc, append-nil,
  split_if, subst, true,
}
use my_etcd.Base.Words.{ℤ}
use my_etcd.Base.GoMap.{lookup}
use my_etcd.Base.Result.{Result, ok, err}
use my_etcd.Types.{Command}
use my_etcd.Storage.Data.{EngineError, Data, replay}
use my_etcd.Storage.Engine.{
  WalWrapper, Engine, next_step, modify, ◌>>◌, put_command, append_command, sync_log,
}
use my_etcd.Storage.Queries.{append_puts, write_all, batch_put}
use my_etcd.Storage.Durability.{replay-put}
use my_etcd.Storage.Logging.{IsDurable, SameValues, value_at, value_at-written}

abbrev pub batch_commands : ℤ → List (Bytes × Bytes) → List Command
batch_commands t [] = []
batch_commands t ((key, value) ∷ kvs) = put_command t key value ∷ batch_commands t kvs

module _ {W : Type 0} (ops : WalWrapper W) where
  wal-write_all :
      (clock : ℕ → ℤ) (t : ℤ) (kvs : List (Bytes × Bytes)) (ttl : ℤ) (e : Engine W)
      → (write_all ops clock t kvs ttl e).wal ≡ e.wal
  unfolding write_all
  wal-write_all clock t [] ttl e = refl
  wal-write_all clock t ((key, value) ∷ kvs) ttl e = wal-write_all (λ i. clock (i + 1)) t kvs ttl _

  -- Replaying the commands of the batch keeps in step with writing its keys.
  write_all-SameValues :
      (now : ℤ) (clock : ℕ → ℤ) (t : ℤ) (kvs : List (Bytes × Bytes)) (ttl : ℤ)
      → (base : List Command) (e : Engine W) → SameValues (replay now base []) e.data_map
      → SameValues
          (replay now (base ++ batch_commands t kvs) [])
          (write_all ops clock t kvs ttl e).data_map
  unfolding write_all
  write_all-SameValues now clock t [] ttl base e h j =
      ap (λ (cmds : List Command). value_at (replay now cmds []) j) (append-nil base) ∙ h j
  write_all-SameValues now clock t ((key, value) ∷ kvs) ttl base e h j =
      ap (λ (cmds : List Command). value_at (replay now cmds []) j)
        (sym (append_assoc base (put_command t key value ∷ []) (batch_commands t kvs)))
      ∙ write_all-SameValues now (λ i. clock (i + 1)) t kvs ttl
          (base ++ (put_command t key value ∷ [])) _
          (replay-put ops now t key value _ base e.data_map
            (value_at-written t key value ttl (lookup key e.data_map)) h)
          j

-- The log grew by the commands, nothing else changed, and Sync is still to come.
record Logged {W : Type 0} (ops : WalWrapper W) (After : W → Type 0) (cmds : List Command)
    (e : Engine W) (r : Engine W × Result EngineError (Unit {0})) : Type 0 where
  log_after : W
  same : r ≡ (record e { wal = log_after }, ok tt)
  grown : ops.records log_after ≡ ops.records e.wal ++ cmds
  after : After (ops.sync log_after).0
  synced : ops.records (ops.sync log_after).0 ≡ ops.records log_after

-- What a batch relies on of the log in the state in which it finds it: each Append that succeeds adds
-- its command at the end, Sync after the last one changes no record, and `After` holds of what it
-- leaves.
abbrev pub LogsAll : {W : Type 0} → WalWrapper W → (W → Type 0) → List Command → W → Type 0
LogsAll ops After [] w = After (ops.sync w).0 × (ops.records (ops.sync w).0 ≡ ops.records w)
LogsAll ops After (cmd ∷ cmds) w =
    (ops.append cmd w).1 ≡ true
    → (ops.records (ops.append cmd w).0 ≡ ops.records w ++ (cmd ∷ []))
      × LogsAll ops After cmds (ops.append cmd w).0

module _ {W : Type 0} (ops : WalWrapper W) (After : W → Type 0) where
  append_puts-Logged :
      (t : ℤ) (kvs : List (Bytes × Bytes)) (e : Engine W)
      → LogsAll ops After (batch_commands t kvs) e.wal
      → (append_puts ops t kvs e).1 ≡ ok tt
      → Logged ops After (batch_commands t kvs) e (append_puts ops t kvs e)
  unfolding append_puts append_command
  append_puts-Logged t [] e all = λ h. record {
    log_after = e.wal;
    same = refl;
    grown = sym (append-nil (ops.records e.wal));
    after = all.0;
    synced = all.1;
  }
  append_puts-Logged t ((key, value) ∷ kvs) e all =
      let cmd = put_command t key value in
      let e1 : Engine W = record e { wal = (ops.append cmd e.wal).0 } in
      split_if
        (λ (r : Result EngineError (Unit {0})).
          (next_step (e1, r) (λ u. append_puts ops t kvs)).1 ≡ ok tt
          → Logged ops After (cmd ∷ batch_commands t kvs) e
              (next_step (e1, r) (λ u. append_puts ops t kvs)))
        (ops.append cmd e.wal).1 _ _
        (λ y h.
          let rest = append_puts-Logged t kvs e1 (all y).1 h in
          record {
            log_after = rest.log_after;
            same = rest.same;
            grown =
                rest.grown
                ∙ ap (λ (cs : List Command). cs ++ batch_commands t kvs) (all y).0
                ∙ append_assoc (ops.records e.wal) (cmd ∷ []) (batch_commands t kvs);
            after = rest.after;
            synced = rest.synced;
          })
        (λ n h. absurd (cc h))

  -- What a batch promises: the log that it leaves replays to the values in memory.
  abbrev pub Keeps : ℤ → Engine W × Result EngineError (Unit {0}) → Type 0
  Keeps now r = r.1 ≡ ok tt → After r.0.wal × IsDurable ops now r.0

  -- What follows the appends, where they all went well.
  after_appends :
      (now : ℤ) (clock : ℕ → ℤ) (t : ℤ) (kvs : List (Bytes × Bytes)) (ttl : ℤ) (e : Engine W)
      → IsDurable ops now e
      → (r : Engine W × Result EngineError (Unit {0}))
      → (r.1 ≡ ok tt → Logged ops After (batch_commands t kvs) e r)
      → Keeps now (next_step r (λ u. sync_log ops >> modify (write_all ops clock t kvs ttl)))
  unfolding sync_log
  after_appends now clock t kvs ttl e d (e1, err x) f = λ h. absurd (cc h)
  after_appends now clock t kvs ttl e d (e1, ok u) f =
      let a = f refl in
      let e2 : Engine W = record e1 { wal = (ops.sync e1.wal).0 } in
      let rest = λ (v : Unit {0}). modify (write_all ops clock t kvs ttl) in
      let data_same : e1.data_map ≡ e.data_map =
        ap (λ (r : Engine W × Result EngineError (Unit {0})). r.0.data_map) a.same in
      let wal_same : a.log_after ≡ e1.wal =
        sym (ap (λ (r : Engine W × Result EngineError (Unit {0})). r.0.wal) a.same) in
      let wal_lem = wal-write_all ops clock t kvs ttl e2 in
      split_if (λ (r : Result EngineError (Unit {0})). Keeps now (next_step (e2, r) rest))
        (ops.sync e1.wal).1 _ _
        (λ y h. (
          subst After (sym wal_lem) (subst (λ (w : W). After (ops.sync w).0) wal_same a.after),
          λ j.
              ap (λ (w : W). value_at (replay now (ops.records w) []) j) wal_lem
              ∙ ap (λ (cs : List Command). value_at (replay now cs []) j)
                  (subst (λ (w : W). ops.records (ops.sync w).0 ≡ ops.records a.log_after) wal_same
                      a.synced
                    ∙ a.grown)
              ∙ write_all-SameValues ops now clock t kvs ttl (ops.records e.wal) e2
                  (λ k. d k ∙ ap (λ (m : Data). value_at m k) (sym data_same)) j,
        ))
        (λ n h. absurd (cc h))

  pub batch_put-Keeps :
      (now : ℤ) (clock : ℕ → ℤ) (kvs : List (Bytes × Bytes)) (ttl : ℤ) (e : Engine W)
      → LogsAll ops After (batch_commands (clock 0) kvs) e.wal
      → IsDurable ops now e
      → Keeps now (batch_put ops clock kvs ttl e)
  unfolding batch_put
  batch_put-Keeps now clock kvs ttl e all d =
      split_if (Keeps now) e.closed _ _ (λ c h. absurd (cc h))
        (λ c.
          after_appends now (λ i. clock (i + 1)) (clock 0) kvs ttl e d
            (append_puts ops (clock 0) kvs e) (append_puts-Logged (clock 0) kvs e all))
