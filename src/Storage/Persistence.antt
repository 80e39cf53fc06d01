-- ===== src/Storage/Persistence.antt =====
-- internal/storage/engine.go over internal/wal/wal.go: the engine with the log of segment files.
use my_etcd.Base.{
  ℕ, ◌+◌, ◌<◌, ◌≡◌, ◌≢◌, ◌⊎◌, inl, inr, refl, sym, ap, subst, ◌∙◌, Bool, true, false, List, [], ◌∷◌,
  ◌++◌, Bytes, bytes_eq, split_if, split_option,
}
use my_etcd.Base.Words.{ℤ}
use my_etcd.Base.GoMap.{lookup}
use my_etcd.Base.Result.{Result, ok, err}
use my_etcd.Types.{Command}
use my_etcd.Wal.Frames.{Codec, WalRecord, WalError}
use my_etcd.Wal.Log.{truncate, close, Wal, works, append, sync, new_wal, read_all}
use my_etcd.Wal.Reading.{IsCodec}
use my_etcd.Wal.Soundness.{IsSound, Appended, appended, refused, append-Appended, read_all-IsSound}
use my_etcd.Wal.Recovery.{Reach, commands, commands-append, sync-same, new_wal-IsSound}
use my_etcd.Wal.History.{Reach-Recorded}
use my_etcd.Storage.Data.{EngineError, sync_failed, replay}
use my_etcd.Storage.Engine.{
  WalWrapper, Engine, Exec, next_step, put_command, delete_command, append_command, sync_log,
  log_command, put_logged, delete_logged, put, delete_key,
}
use my_etcd.Storage.Queries.{recover_from_wal}
use my_etcd.Storage.Durability.{put_well, delete_well, put_logged-Steady}
use my_etcd.Storage.Logging.{LogsWell, IsDurable, SameValues, value_at}

abbrev pub is_ok : Result WalError (Unit {0}) → Bool
is_ok r = elim r [ ok u ↦ true | err x ↦ false ]

abbrev commands_of : Result WalError (List WalRecord) → List Command
commands_of r = elim r [ ok rs ↦ commands rs | err x ↦ [] ]

-- The log of segment files as the engine's, on a disk that works; `now` stamps the records.
abbrev pub wal_log : Codec → ℤ → WalWrapper Wal
wal_log c now = record {
  append = λ cmd w. let (m, r) = append c now works cmd w in (m, is_ok r);
  sync = λ w. let (m, r) = sync w in (m, is_ok r);
  records = λ w. commands_of (read_all c w);
  index = λ w. w.index;
  term = λ w. w.term;
  truncate = λ i w. let (m, r) = truncate i w in (m, is_ok r);
  close = λ w. let (m, r) = close w in (m, is_ok r);
}

-- A new engine, over a log that is opened on the files that the engine `e` left.
abbrev pub restart : Codec → ℤ → ℤ → ℤ → Engine Wal → Engine Wal
restart c now max t e =
    recover_from_wal (wal_log c now) t (record e { data_map = []; wal = new_wal max e.wal.dir })

module _ (c : Codec) (kept : Command → Type 0) (codec : IsCodec c kept) (now : ℤ) where
  pub records-IsSound :
      (w : Wal) (rs : List WalRecord) → IsSound c w rs → (wal_log c now).records w ≡ commands rs
  records-IsSound w rs h = ap commands_of (read_all-IsSound c w rs h)

  pub wal_log-LogsWell :
      (cmd : Command) (w : Wal) (rs : List WalRecord)
      → kept cmd
      → w.index + 1 < 18446744073709551616
      → IsSound c w rs
      → LogsWell (wal_log c now) cmd w
  wal_log-LogsWell cmd w rs k room h = record {
    append_ok = λ fine. grown (append-Appended c kept now cmd w rs codec k room h) fine;
    append_fails = λ fine. left (append-Appended c kept now cmd w rs codec k room h) fine;
    sync_keeps = λ fine.
        ap (λ (x : Wal). commands_of (read_all c x)) (sync-same (append c now works cmd w).0);
  }
    where
      grown :
          {r : Wal × Result WalError (Unit {0})}
          → Appended c cmd w rs r
          → is_ok r.1 ≡ true
          → commands_of (read_all c r.0) ≡ commands_of (read_all c w) ++ (cmd ∷ [])
      grown (appended sealed fine a b d sound) e =
          records-IsSound _ _ sound
          ∙ commands-append rs sealed
          ∙ ap (λ (x : Command). commands rs ++ (x ∷ [])) a
          ∙ ap (λ (x : List Command). x ++ (cmd ∷ [])) (sym (records-IsSound w rs h))
      grown (refused x same) e =
          absurd (cc (e, ap (λ (r : Wal × Result WalError (Unit {0})). is_ok r.1) same))

      left :
          {r : Wal × Result WalError (Unit {0})}
          → Appended c cmd w rs r
          → is_ok r.1 ≡ false
          → commands_of (read_all c r.0) ≡ commands_of (read_all c w)
      left (appended sealed fine a b d sound) e =
          absurd (cc (e, ap (λ (y : Result WalError (Unit {0})). is_ok y) fine))
      left (refused x same) e =
          ap (λ (r : Wal × Result WalError (Unit {0})). commands_of (read_all c r.0)) same

  -- A log that is sound, or that an Append left.
  AfterAppend : Command → Wal → Wal → Type 0
  AfterAppend cmd w v = (v ≡ w) ⊎ (v ≡ (append c now works cmd w).0)

  AfterAppend-IsSound :
      (cmd : Command) (w v : Wal) (rs : List WalRecord)
      → kept cmd
      → w.index + 1 < 18446744073709551616
      → IsSound c w rs
      → AfterAppend cmd w v
      → (rs' : List WalRecord) × IsSound c v rs'
  unfolding AfterAppend
  AfterAppend-IsSound cmd w v rs k room h (inl e) =
      (rs, subst (λ (x : Wal). IsSound c x rs) (sym e) h)
  AfterAppend-IsSound cmd w v rs k room h (inr e) =
      subst (λ (x : Wal). (rs' : List WalRecord) × IsSound c x rs') (sym e)
        (left (append-Appended c kept now cmd w rs codec k room h))
    where
      left :
          {r : Wal × Result WalError (Unit {0})}
          → Appended c cmd w rs r
          → (rs' : List WalRecord) × IsSound c r.0 rs'
      left (appended sealed fine a b d sound) = (_, sound)
      left (refused x same) =
          (rs, subst (λ (r : Wal × Result WalError (Unit {0})). IsSound c r.0 rs) (sym same) h)

  log_command-AfterAppend :
      (cmd : Command) (e : Engine Wal)
      → AfterAppend cmd e.wal (log_command (wal_log c now) cmd e).0.wal
  unfolding AfterAppend log_command append_command sync_log
  log_command-AfterAppend cmd e =
      split_if
        (λ (r : Result EngineError (Unit {0})).
          ((next_step (record e { wal = (append c now works cmd e.wal).0 }, r)
              (λ u. sync_log (wal_log c now))).0.wal
            ≡ e.wal)
          ⊎ ((next_step (record e { wal = (append c now works cmd e.wal).0 }, r)
                (λ u. sync_log (wal_log c now))).0.wal
              ≡ (append c now works cmd e.wal).0))
        (is_ok (append c now works cmd e.wal).1) _ _
        (λ y. inr (sync-same (append c now works cmd e.wal).0)) (λ n. inr refl)

  next_step-wal :
      (r : Engine Wal × Result EngineError (Unit {0})) (f : Exec Wal (Unit {0}))
      → ((e : Engine Wal) → (f e).0.wal ≡ e.wal)
      → (next_step r (λ u. f)).0.wal ≡ r.0.wal
  next_step-wal (e, ok u) f h = h e
  next_step-wal (e, err x) f h = refl

  put-AfterAppend :
      (clock : ℕ → ℤ) (key value : Bytes) (ttl : ℤ) (e : Engine Wal)
      → AfterAppend
          (put_command (clock 0) key value)
          e.wal
          (put (wal_log c now) clock key value ttl e).0.wal
  unfolding AfterAppend put
  put-AfterAppend clock key value ttl e =
      let cmd = put_command (clock 0) key value in
      split_if
        (λ (r : Engine Wal × Result EngineError (Unit {0})).
          (r.0.wal ≡ e.wal) ⊎ (r.0.wal ≡ (append c now works cmd e.wal).0))
        e.closed _ _ (λ y. inl refl)
        (λ n.
          subst (λ (v : Wal). AfterAppend cmd e.wal v)
            (sym (
              next_step-wal (log_command (wal_log c now) cmd e)
                (put_logged (wal_log c now) clock key value ttl)
                (λ e'. (put_logged-Steady (wal_log c now) clock key value ttl e').same_wal)))
            (log_command-AfterAppend cmd e))

  delete_key-AfterAppend :
      (clock : ℕ → ℤ) (key : Bytes) (e : Engine Wal)
      → AfterAppend
          (delete_command (clock 0) key)
          e.wal
          (delete_key (wal_log c now) clock key e).0.wal
  unfolding AfterAppend delete_key delete_logged
  delete_key-AfterAppend clock key e =
      let cmd = delete_command (clock 0) key in
      split_if Kept e.closed _ _ (λ y. inl refl)
        (λ n.
          split_option Kept (lookup key e.data_map) _ _ (λ m. inl refl)
            (λ kv there.
              subst (λ (v : Wal). AfterAppend cmd e.wal v)
                (sym (
                  next_step-wal (log_command (wal_log c now) cmd e)
                    (delete_logged (wal_log c now) clock key kv) (λ e'. refl)))
                (log_command-AfterAppend cmd e)))
    where
      Kept : Engine Wal × Result EngineError (Unit {0}) → Type 0
      Kept r =
          (r.0.wal ≡ e.wal)
          ⊎ (r.0.wal ≡ (append c now works (delete_command (clock 0) key) e.wal).0)

  pub restart-SameValues :
      (max t : ℤ) (e : Engine Wal) (rs : List WalRecord)
      → IsSound c e.wal rs
      → IsDurable (wal_log c now) t e
      → SameValues (restart c now max t e).data_map e.data_map
  unfolding recover_from_wal
  restart-SameValues max t e rs h durable j =
      ap (λ (cmds : List Command). value_at (replay t cmds []) j)
        (records-IsSound (new_wal max e.wal.dir) rs (new_wal-IsSound c max e.wal rs h)
          ∙ sym (records-IsSound e.wal rs h))
      ∙ durable j

  -- Put over the log of segment files, on a disk that works: from a state in which the log replays to
  -- the values in memory, an engine that is started again on the files after the call gives every key
  -- the value that it has in memory, whether Put succeeded or failed other than in Sync. Conditions:
  -- encoding/json is as `IsCodec` says, Put's command and those in the log are of the kind it keeps,
  -- the log came about as `Reach` says, and its index does not reach 2^64.
  pub put_survives_restart :
      (clock : ℕ → ℤ) (key value : Bytes) (ttl max t : ℤ) (e : Engine Wal) (cmds : List Command)
      → Reach c kept e.wal cmds
      → kept (put_command (clock 0) key value)
      → e.wal.index + 1 < 18446744073709551616
      → IsDurable (wal_log c now) t e
      → (put (wal_log c now) clock key value ttl e).1 ≢ err sync_failed
      → SameValues
          (restart c now max t (put (wal_log c now) clock key value ttl e).0).data_map
          (put (wal_log c now) clock key value ttl e).0.data_map
  put_survives_restart clock key value ttl max t e cmds reach k room durable synced =
      let (rs, sound, same) = Reach-Recorded c kept codec e.wal cmds reach in
      let cmd = put_command (clock 0) key value in
      let (rs', later) =
        AfterAppend-IsSound cmd e.wal _ rs k room sound (put-AfterAppend clock key value ttl e) in
      restart-SameValues max t _ rs' later (
        put_well (wal_log c now) t clock key value ttl e
          (wal_log-LogsWell cmd e.wal rs k room sound) durable synced)

  -- Delete over the log of segment files, on a disk that works: from a state in which the log replays
  -- to the values in memory, an engine that is started again on the files after the call gives every
  -- key the value that it has in memory, whether Delete succeeded, did not find the key or failed other
  -- than in Sync. Conditions: encoding/json is as `IsCodec` says, Delete's command and those in the log
  -- are of the kind it keeps, the log came about as `Reach` says, and its index does not reach 2^64.
  pub delete_survives_restart :
      (clock : ℕ → ℤ) (key : Bytes) (max t : ℤ) (e : Engine Wal) (cmds : List Command)
      → Reach c kept e.wal cmds
      → kept (delete_command (clock 0) key)
      → e.wal.index + 1 < 18446744073709551616
      → IsDurable (wal_log c now) t e
      → (delete_key (wal_log c now) clock key e).1 ≢ err sync_failed
      → SameValues
          (restart c now max t (delete_key (wal_log c now) clock key e).0).data_map
          (delete_key (wal_log c now) clock key e).0.data_map
  delete_survives_restart clock key max t e cmds reach k room durable synced =
      let (rs, sound, same) = Reach-Recorded c kept codec e.wal cmds reach in
      let cmd = delete_command (clock 0) key in
      let (rs', later) =
        AfterAppend-IsSound cmd e.wal _ rs k room sound (delete_key-AfterAppend clock key e) in
      restart-SameValues max t _ rs' later (
        delete_well (wal_log c now) t clock key e (wal_log-LogsWell cmd e.wal rs k room sound)
          durable synced)
