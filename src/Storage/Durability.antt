-- ===== src/Storage/Durability.antt =====
-- The writes of internal/storage/engine.go against its log: what recovery from the log gives back after
-- them.
use my_etcd.Base.{
  ℕ, ◌≡◌, ◌≢◌, refl, sym, ap, ◌∙◌, List, [], ◌∷◌, ◌++◌, Bytes, bytes_eq, if◌then◌else◌, arith,
  split_if, split_option, bytes_beq_iff, inl, inr,
}
use my_etcd.Base.Words.{ℤ, pos, ltb_ℤ}
use my_etcd.Base.GoMap.{lookup, insert, delete}
use my_etcd.Base.Result.{Result, ok, err, Result-cases}
use my_etcd.Lease.Manager
use my_etcd.Watch.Watcher.{watch_put}
use my_etcd.Types.{Command}
use my_etcd.Storage.Data.{
  EngineError, sync_failed, KeyValue, Data, written, apply_put, apply_delete, apply_command, replay,
}
use my_etcd.Storage.Engine.{
  WalWrapper, Engine, Exec, next_step, return, modify, announce, old_value, put_command,
  delete_command, log_command, attach_new, lease_key, put_logged, delete_logged, set_lease, put,
  delete_key,
}
use my_etcd.Storage.Queries.{recover_from_wal, commit_transaction, is_pending}
use my_etcd.Storage.Logging.{
  LogsWell, value_at, SameValues, value_at-written, value_at-applied, value_at-insert,
  value_at-delete, replay-append, IsDurable, Logged, log_command-Logged, logged, not_appended,
  not_synced,
}

-- The log and the values are as they were.
pub record Steady {W : Type 0} (e e' : Engine W) : Type 0 where
  pub same_wal : e'.wal ≡ e.wal
  pub same_values : SameValues e.data_map e'.data_map

value_at-set_lease :
    (id : ℤ) (key j : Bytes) (d : Data) → value_at (set_lease id key d) j ≡ value_at d j
value_at-set_lease id key j d =
    split_option (λ (x : Data). value_at x j ≡ value_at d j) (lookup key d) _ _ (λ n. refl)
      (λ kv there.
        value_at-insert key j (record kv { lease_id = id }) d
        ∙ ground (arith, there, bytes_beq_iff key j))

Steady-trans : {W : Type 0} {a b c : Engine W} → Steady a b → Steady b c → Steady a c
Steady-trans s t = record {
  same_wal = t.same_wal ∙ s.same_wal;
  same_values = λ j. s.same_values j ∙ t.same_values j;
}

next_step-Steady :
    {W A B : Type 0} (e : Engine W) (r : Engine W × Result EngineError A) (f : A → Exec W B)
    → Steady e r.0
    → ((a : A) → Steady r.0 (f a r.0).0)
    → Steady e (next_step r f).0
next_step-Steady e (e', ok a) f s t = Steady-trans s (t a)
next_step-Steady e (e', err x) f s t = s

module _ {W : Type 0} (ops : WalWrapper W) where
  attach_new-Steady : (key : Bytes) (id : ℤ) (e : Engine W) → Steady e (attach_new ops key id e).0
  unfolding attach_new
  attach_new-Steady key id e = elim (Result-cases (Manager.attach id key e.lease_manager).1) [
    | inl (u, done) ↦
        rw (attach_new, done)
          (record {
            same_wal = refl;
            same_values = λ j. sym (value_at-set_lease id key j e.data_map);
          })
    | inr (x, refused) ↦
        rw (attach_new, refused) (record { same_wal = refl; same_values = λ j. refl })
  ]

  lease_key-Steady :
      (clock : ℕ → ℤ) (key : Bytes) (ttl : ℤ) (e : Engine W)
      → Steady e (lease_key ops clock key ttl e).0
  unfolding lease_key
  lease_key-Steady clock key ttl e =
      elim (Result-cases (Manager.grant (clock 2) ttl e.lease_manager).1) [
        | inl (id, granted) ↦ rw granted (steady_leases (attach_new-Steady key id _))
        | inr (x, refused) ↦ rw refused (record { same_wal = refl; same_values = λ j. refl })
      ]
    where
      steady_leases :
          {m : Manager.LeaseManager} {e' : Engine W}
          → Steady (record e { lease_manager = m }) e'
          → Steady e e'
      steady_leases s = record { same_wal = s.same_wal; same_values = s.same_values }

  pub put_logged-Steady :
      (clock : ℕ → ℤ) (key value : Bytes) (ttl : ℤ) (e : Engine W)
      → Steady
          (record e {
            data_map =
                insert key (written (clock 1) key value ttl (lookup key e.data_map)) e.data_map;
          })
          (put_logged ops clock key value ttl e).0
  unfolding put_logged
  put_logged-Steady clock key value ttl e =
      next_step-Steady stored
        ((if ltb_ℤ (pos 0) ttl then lease_key ops clock key ttl else return tt) stored)
        (λ u. modify (
          announce watch_put (clock 3) key value (old_value (lookup key e.data_map))
            (written (clock 1) key value ttl (lookup key e.data_map)).version))
        (split_if (λ (m : Exec W (Unit {0})). Steady stored (m stored).0) (ltb_ℤ (pos 0) ttl)
          (lease_key ops clock key ttl) (return tt) (λ yes_. lease_key-Steady clock key ttl stored)
          (λ no_. record { same_wal = refl; same_values = λ j. refl }))
        (λ a. record { same_wal = refl; same_values = λ j. refl })
    where
      stored : Engine W
      stored = record e {
        data_map = insert key (written (clock 1) key value ttl (lookup key e.data_map)) e.data_map;
      }

  -- Replaying one more put on the log keeps the values of the data in step.
  pub replay-put :
      (now t : ℤ) (key value : Bytes) (kv : KeyValue) (cmds : List Command) (d : Data)
      → kv.value ≡ value
      → SameValues (replay now cmds []) d
      → SameValues (replay now (cmds ++ (put_command t key value ∷ [])) []) (insert key kv d)
  unfolding apply_command apply_put
  replay-put now t key value kv cmds d v h j =
      ap (λ (x : Data). value_at x j) (replay-append now cmds (put_command t key value) [])
      ∙ value_at-insert key j _ (replay now cmds [])
      ∙ ground (
        arith,
        value_at-applied now key value (lookup key (replay now cmds [])),
        h j,
        v,
        value_at-insert key j kv d,
      )

  replay-delete :
      (now t : ℤ) (key : Bytes) (cmds : List Command) (d : Data)
      → SameValues (replay now cmds []) d
      → SameValues (replay now (cmds ++ (delete_command t key ∷ [])) []) (delete key d)
  unfolding apply_command apply_delete
  replay-delete now t key cmds d h j =
      ap (λ (x : Data). value_at x j) (replay-append now cmds (delete_command t key) [])
      ∙ value_at-delete key j (replay now cmds [])
      ∙ ground (arith, h j, value_at-delete key j d)

-- What an operation promises of durability: from a durable state it ends in one, unless it reports
-- that the log could not be synced.
abbrev pub StaysDurable :
    {W : Type 0} → WalWrapper W → ℤ → Engine W → Engine W × Result EngineError (Unit {0}) → Type 0
StaysDurable ops now e r = IsDurable ops now e → r.1 ≢ err sync_failed → IsDurable ops now r.0

module _ {W : Type 0} (ops : WalWrapper W) (now : ℤ) where
  -- A step that logs `cmd` first stays durable if what follows the log does.
  after_log :
      (cmd : Command) (rest : Exec W (Unit {0})) (e : Engine W)
      → LogsWell ops cmd e.wal
      → ((w : W)
          → ops.records w ≡ ops.records e.wal ++ (cmd ∷ [])
          → IsDurable ops now e
          → IsDurable ops now (rest (record e { wal = w })).0)
      → StaysDurable ops now e (next_step (log_command ops cmd e) (λ u. rest))
  after_log cmd rest e well k h synced = on (log_command-Logged ops cmd e well) synced
    where
      on :
          {r : Engine W × Result EngineError (Unit {0})}
          → Logged ops cmd e r
          → (next_step r (λ u. rest)).1 ≢ err sync_failed
          → IsDurable ops now (next_step r (λ u. rest)).0
      on (logged w same grown) s = rw same (k w grown h)
      on (not_appended w same kept) s =
          rw same (λ j. ap (λ (cmds : List Command). value_at (replay now cmds []) j) kept ∙ h j)
      on (not_synced w same) s = absurd (s (rw same refl))

  pub put_well :
      (clock : ℕ → ℤ) (key value : Bytes) (ttl : ℤ) (e : Engine W)
      → LogsWell ops (put_command (clock 0) key value) e.wal
      → IsDurable ops now e
      → (put ops clock key value ttl e).1 ≢ err sync_failed
      → IsDurable ops now (put ops clock key value ttl e).0
  unfolding put
  put_well clock key value ttl e well h =
      split_if
        (λ (r : Engine W × Result EngineError (Unit {0})).
          r.1 ≢ err sync_failed → IsDurable ops now r.0)
        e.closed _ _ (λ c s. h)
        (λ c.
          after_log (put_command (clock 0) key value) (put_logged ops clock key value ttl) e well
            (λ w grown d.
              let steady = put_logged-Steady ops clock key value ttl (record e { wal = w }) in
              λ j.
                ap (λ (x : W). value_at (replay now (ops.records x) []) j) steady.same_wal
                ∙ ap (λ (cmds : List Command). value_at (replay now cmds []) j) grown
                ∙ replay-put ops now (clock 0) key value _ (ops.records e.wal) e.data_map
                    (value_at-written (clock 1) key value ttl (lookup key e.data_map)) d j
                ∙ steady.same_values j)
            h)

  pub delete_well :
      (clock : ℕ → ℤ) (key : Bytes) (e : Engine W)
      → LogsWell ops (delete_command (clock 0) key) e.wal
      → IsDurable ops now e
      → (delete_key ops clock key e).1 ≢ err sync_failed
      → IsDurable ops now (delete_key ops clock key e).0
  unfolding delete_key delete_logged delete
  delete_well clock key e well h =
      split_if Result_durable e.closed _ _ (λ c s. h)
        (λ c.
          split_option Result_durable (lookup key e.data_map) _ _ (λ n s. h)
            (λ kv there.
              after_log (delete_command (clock 0) key) (delete_logged ops clock key kv) e well
                (λ w grown d j.
                  ap (λ (cmds : List Command). value_at (replay now cmds []) j) grown
                  ∙ replay-delete ops now (clock 0) key (ops.records e.wal) e.data_map d j)
                h))
    where
      Result_durable : Engine W × Result EngineError (Unit {0}) → Type 0
      Result_durable r = r.1 ≢ err sync_failed → IsDurable ops now r.0

module _ {W : Type 0} (ops : WalWrapper W) (now : ℤ) where
  -- CommitTransaction writes nothing to the log: after a commit, recovery gives each key the value
  -- that it had before the commit, whatever the transaction's operations, if the log replayed to the
  -- values in memory before.
  pub commit_is_lost :
      (t : ℤ) (id : Bytes) (e : Engine W)
      → IsDurable ops now e
      → (key : Bytes)
      → value_at
          (recover_from_wal ops now
            (record (commit_transaction t id e).0 { data_map = [] })).data_map
          key
        ≡ value_at e.data_map key
  unfolding commit_transaction recover_from_wal
  commit_is_lost t id e h key =
      ap (λ (x : W). value_at (replay now (ops.records x) []) key)
        (split_if (λ (r : Engine W × Result EngineError (Unit {0})). r.0.wal ≡ e.wal) e.closed _ _
          (λ c. refl)
          (λ c.
            split_option (λ (r : Engine W × Result EngineError (Unit {0})). r.0.wal ≡ e.wal)
              (lookup id e.transactions) _ _ (λ n. refl)
              (λ txn there.
                split_if (λ (r : Engine W × Result EngineError (Unit {0})). r.0.wal ≡ e.wal)
                  (is_pending txn.status) _ _ (λ y. refl) (λ n. refl))))
      ∙ h key
