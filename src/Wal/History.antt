-- ===== src/Wal/History.antt =====
-- What reading the log of internal/wal/wal.go gives, after any life of it, and after a write that was
-- cut short.
use my_etcd.Base.{
  ℕ, ◌+◌, ◌<◌, ◌≡◌, ◌≢◌, refl, sym, ap, subst, ◌∙◌, false, List, [], ◌∷◌, ◌++◌, Bytes, length, take,
  nat_eq, if◌then◌else◌, arith, split_if,
}
use my_etcd.Base.Words.{ℤ, pos, ltb_ℤ, u64}
use my_etcd.Base.Result.{Result, ok, err}
use my_etcd.Types.{Command}
use my_etcd.Wal.Frames.{Codec, WalRecord, WalError, wal_closed, write_failed, frame, seal, prepend}
use my_etcd.Wal.Segments.{WalSegment, FileName, name_of, append_file, read_segments}
use my_etcd.Wal.Log.{
  Wal, torn, create_new_segment, new_wal, write_frame, write_record, append, read_all,
}
use my_etcd.Wal.Reading.{IsCodec, seal-IsSealed}
use my_etcd.Wal.Tearing.{read_segment-torn}
use my_etcd.Wal.Files.{append_file-last, read_segments-past}
use my_etcd.Wal.Soundness.{
  IsSound, read_all-IsSound, create_new_segment-IsSound, append-Appended, Appended, appended,
  refused,
}
use my_etcd.Wal.Recovery.{
  Reach, started, one_appended, not_appended, term_set, truncated, synced, restarted, commands,
  commands-append, new_wal-empty, load_latest_segment-there, new_wal-IsSound, sync-same,
  set_term-IsSound, truncate-IsSound,
}

abbrev Recorded : Codec → Wal → List Command → Type 0
Recorded c w cmds = (rs : List WalRecord) × IsSound c w rs × (commands rs ≡ cmds)

pub Reach-Recorded :
    (c : Codec) (kept : Command → Type 0) (codec : IsCodec c kept) (w : Wal) (cmds : List Command)
    → Reach c kept w cmds
    → Recorded c w cmds
Reach-Recorded c kept codec _ _ (started max) = ([], new_wal-empty c max, refl)
Reach-Recorded c kept codec _ _ (one_appended {w} {cmds} now command reach k room done) =
    let (rs, sound, same) = Reach-Recorded c kept codec w cmds reach in
    grown rs same (append-Appended c kept now command w rs codec k room sound) done
  where
    grown :
        {r : Wal × Result WalError (Unit {0})} (rs : List WalRecord)
        → commands rs ≡ cmds
        → Appended c command w rs r
        → r.1 ≡ ok tt
        → Recorded c r.0 (cmds ++ (command ∷ []))
    grown rs same (appended sealed fine a b d sound) done = (
      rs ++ (sealed ∷ []),
      sound,
      commands-append rs sealed
          ∙ ap (λ (x : List Command). x ++ (sealed.command ∷ [])) same
          ∙ ap (λ (x : Command). cmds ++ (x ∷ [])) a,
    )
    grown rs same (refused x e) done =
        absurd (cc (done, ap (λ (r : Wal × Result WalError (Unit {0})). r.1) e))
Reach-Recorded c kept codec _ _ (not_appended {w} {cmds} now command reach k room failed) =
    let (rs, sound, same) = Reach-Recorded c kept codec w cmds reach in
    left rs sound same (append-Appended c kept now command w rs codec k room sound) failed
  where
    left :
        {r : Wal × Result WalError (Unit {0})} (rs : List WalRecord)
        → IsSound c w rs
        → commands rs ≡ cmds
        → Appended c command w rs r
        → r.1 ≢ ok tt
        → Recorded c r.0 cmds
    left rs sound same (appended sealed fine a b d grown) failed = absurd (failed fine)
    left rs sound same (refused x e) failed =
        (rs, subst (λ (r : Wal × Result WalError (Unit {0})). IsSound c r.0 rs) (sym e) sound, same)
Reach-Recorded c kept codec _ _ (term_set {w} {cmds} term reach le) =
    let (rs, sound, same) = Reach-Recorded c kept codec w cmds reach in
    (rs, set_term-IsSound c term w rs sound le, same)
Reach-Recorded c kept codec _ _ (truncated {w} {cmds} index reach le) =
    let (rs, sound, same) = Reach-Recorded c kept codec w cmds reach in
    (rs, truncate-IsSound c index w rs sound le, same)
Reach-Recorded c kept codec _ _ (synced {w} {cmds} reach) =
    let (rs, sound, same) = Reach-Recorded c kept codec w cmds reach in
    (rs, subst (λ (x : Wal). IsSound c x rs) (sym (sync-same w)) sound, same)
Reach-Recorded c kept codec _ _ (restarted {w} {cmds} max reach) =
    let (rs, sound, same) = Reach-Recorded c kept codec w cmds reach in
    (rs, new_wal-IsSound c max w rs sound, same)

-- After any sequence of Append, SetTerm, Truncate, Sync and restart from the files, ReadAll returns
-- records of exactly the commands whose Append succeeded, in order. Conditions: encoding/json reads
-- back each record whose command is of the kind `kept`, in fewer than 2^32 bytes; the commands are of
-- that kind; the disk works; no index reaches 2^64; terms do not shrink; a Truncate is at the log's
-- index or above.
pub read_all-Reach :
    (c : Codec) (kept : Command → Type 0) (w : Wal) (cmds : List Command)
    → IsCodec c kept
    → Reach c kept w cmds
    → (rs : List WalRecord) × (read_all c w ≡ ok rs) × (commands rs ≡ cmds)
read_all-Reach c kept w cmds codec reach =
    let (rs, sound, same) = Reach-Recorded c kept codec w cmds reach in
    (rs, read_all-IsSound c w rs sound, same)

-- Neither these files nor a log that is started on them can be read.
Unreadable : Codec → List WalSegment → Type 0
Unreadable c dir =
    (max : ℤ)
    → (x : WalError) × (read_all c (new_wal max dir) ≡ err x) × (read_segments c dir ≡ err x)

read_all-new_wal :
    (c : Codec) (max : ℤ) (front : List WalSegment) (s : WalSegment)
    → read_all c (new_wal max (front ++ (s ∷ []))) ≡ read_segments c (front ++ (s ∷ []))
unfolding read_all new_wal
read_all-new_wal c max front s =
    ap (λ (w : Wal). if w.closed then err wal_closed else read_segments c w.dir)
      (load_latest_segment-there _ front s refl)

torn-Unreadable :
    (c : Codec) (w : Wal) (rs : List WalRecord) (bytes : Bytes) (n : ℕ)
    → IsSound c w rs
    → length bytes < 4294967296
    → 0 < n
    → n < 4 + length bytes
    → Unreadable c (append_file w.file (take n (frame bytes)) w.dir)
unfolding Unreadable
torn-Unreadable c w rs bytes n h short some_ not_all max =
    let part = take n (frame bytes) in
    let (x, stops) =
      read_segment-torn c h.late h.latest.content bytes n h.last_read short some_ not_all in
    let last = record (h.latest) { content = h.latest.content ++ part } in
    let alone : read_segments c (last ∷ []) ≡ err x =
      unfold read_segments in
      ap
        (λ (y : Result WalError (List WalRecord)).
          elim y as (λ _. Result WalError (List WalRecord)) [
            | err z ↦ err z
            | ok ys ↦ prepend ys (read_segments c [])
          ])
        stops in
    let all = read_segments-past c h.early h.front (last ∷ []) x h.all_read alone in
    let files : append_file w.file part w.dir ≡ h.front ++ (last ∷ []) =
      ap (λ (f : FileName). append_file f part w.dir) h.same_file
      ∙ ap (λ (d : List WalSegment). append_file (name_of h.latest) part d) h.same_dir
      ∙ append_file-last h.front h.latest part h.in_order in
    (
      x,
      ap (λ (d : List WalSegment). read_all c (new_wal max d)) files
          ∙ read_all-new_wal c max h.front last
          ∙ all,
      ap (read_segments c) files ∙ all,
    )

-- What a write that was cut short leaves: the error, an open log, and files that cannot be read.
data CutShort (c : Codec) (r : Wal × Result WalError (Unit {0})) : Type 0 where
  cut_short : r.1 ≡ err write_failed → r.0.closed ≡ false → Unreadable c r.0.dir → CutShort c r

write_record-torn :
    (c : Codec) (w : Wal) (rs : List WalRecord) (bytes : Bytes) (n : ℕ)
    → IsSound c w rs
    → length bytes < 4294967296
    → 0 < n
    → n < 4 + length bytes
    → CutShort c (write_record (torn n) bytes w)
unfolding write_record write_frame create_new_segment
write_record-torn c w rs bytes n h short some_ not_all =
    split_if (CutShort c) (ltb_ℤ w.max_size (pos (w.file_size + length bytes))) _ _
      (λ y.
        split_if (CutShort c) w.failed _ _ (λ f. absurd (ground (arith, h.healthy)))
          (λ f. cut_short refl h.is_open (
            torn-Unreadable c (create_new_segment w.index w.term w) rs bytes n
              (create_new_segment-IsSound c w rs w.term h (omega arith)) short some_ not_all)))
      (λ k.
        split_if (CutShort c) w.failed _ _ (λ f. absurd (ground (arith, h.healthy)))
          (λ f. cut_short refl h.is_open (torn-Unreadable c w rs bytes n h short some_ not_all)))

abbrev pub new_record : ℤ → Command → Wal → WalRecord
new_record now command w = record {
  index = u64 (w.index + 1);
  term = w.term;
  command = command;
  checksum = 0;
  timestamp = now;
}

-- If the disk fails in an Append once at least one byte and not all of the record are written, Append
-- returns the write's error, and ReadAll right after that Append fails, on this log and on one started
-- again on the files as that Append left them: it returns no record of the log, also none of those
-- that were synced before.
-- Conditions: the log came about by appends, changes of term, truncations, syncs and restarts that
-- `Reach` admits, encoding/json is as `IsCodec` says and encodes the record.
pub append-torn :
    (c : Codec) (kept : Command → Type 0) (w : Wal) (cmds : List Command) (now : ℤ)
    (command : Command) (n : ℕ) (sealed : WalRecord) (bytes : Bytes)
    → IsCodec c kept
    → Reach c kept w cmds
    → kept command
    → seal c (new_record now command w) ≡ ok (sealed, bytes)
    → 0 < n
    → n < 4 + length bytes
    → ((append c now (torn n) command w).1 ≡ err write_failed)
      × ((x : WalError) × (read_all c (append c now (torn n) command w).0 ≡ err x))
      × ((max : ℤ)
          → (x : WalError) × (read_all c (new_wal max (append c now (torn n) command w).0.dir)
              ≡ err x))
unfolding append read_all Unreadable
append-torn c kept w cmds now command n sealed bytes codec reach k made some_ not_all =
    let (rs, sound, same) = Reach-Recorded c kept codec w cmds reach in
    let good =
      (seal-IsSealed c kept (new_record now command w) sealed bytes codec k made).is_record in
    split_if Lost w.closed _ _ (λ y. absurd (ground (arith, sound.is_open)))
      (λ m.
        subst (λ y. Lost (after y)) (sym made)
          (lost (write_record (torn n) bytes w)
            (write_record-torn c w rs bytes n sound good.short some_ not_all)))
  where
    Lost : Wal × Result WalError (Unit {0}) → Type 0
    Lost r =
        (r.1 ≡ err write_failed)
        × ((x : WalError) × (read_all c r.0 ≡ err x))
        × ((max : ℤ) → (x : WalError) × (read_all c (new_wal max r.0.dir) ≡ err x))

    last_step : Wal × Result WalError (Unit {0}) → Wal × Result WalError (Unit {0})
    last_step (m, result) = elim result [
      | err x ↦ (m, err x)
      | ok u ↦ (record m { index = u64 (m.index + 1) }, ok tt)
    ]

    after : Result WalError (WalRecord × Bytes) → Wal × Result WalError (Unit {0})
    after y = elim y [ err x ↦ (w, err x) | ok (r, b) ↦ last_step (write_record (torn n) b w) ]

    lost : (p : Wal × Result WalError (Unit {0})) → CutShort c p → Lost (last_step p)
    lost (m, ok u) (cut_short e open_ h) = absurd (cc e)
    lost (m, err x) (cut_short e open_ h) =
        let (z, unread, files) = h (pos 0) in
        (e, (z, ground (arith, open_, files)), λ max. ((h max).0, (h max).1))
