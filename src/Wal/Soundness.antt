-- ===== src/Wal/Soundness.antt =====
-- The invariant of the log of internal/wal/wal.go, and the operations that keep it.
use my_etcd.Base.{
  ℕ, ◌+◌, ◌≤◌, ◌<◌, ◌≡◌, ◌⊎◌, inl, inr, refl, sym, ap, subst, ◌∙◌, true, false, List, [], ◌∷◌, ◌++◌,
  Bytes, length, nat_eq, arith, append_assoc, append-nil, split_if, Bool-cases,
}
use my_etcd.Base.Words.{ℤ, pos, ltb_ℤ, u64}
use my_etcd.Base.Result.{Result, ok, err, Result-cases}
use my_etcd.Types.{Command}
use my_etcd.Wal.Frames.{Codec, WalRecord, WalError, frame, seal}
use my_etcd.Wal.Segments.{WalSegment, FileName, name_of, before, append_file, open_file}
use my_etcd.Wal.Log.{Wal, works, create_new_segment, write_frame, write_record, append, read_all}
use my_etcd.Wal.Reading.{Holds, Holds-append, IsRecord, IsCodec, seal-IsSealed}
use my_etcd.Wal.Files.{
  AllBefore, new_file, open_file-later, open_file-last, append_file-last, AllBefore-trans,
  All-append, HoldsAll, HoldsAll-append, read_segments-HoldsAll,
}

-- The log is open and its files hold the records `rs`: the open file is the last by name, and the log
-- is not behind the numbers of its name.
pub record IsSound (c : Codec) (w : Wal) (rs : List WalRecord) : Type 0 where
  pub front : List WalSegment
  pub latest : WalSegment
  pub early : List WalRecord
  pub late : List WalRecord
  pub same_dir : w.dir ≡ front ++ (latest ∷ [])
  pub same_file : w.file ≡ name_of latest
  pub in_order : AllBefore (name_of latest) front
  pub not_behind : latest.index ≤ w.index
  pub same_term : latest.term ≡ w.term
  pub all_read : HoldsAll c early front
  pub last_read : Holds c late latest.content
  pub same_records : rs ≡ early ++ late
  pub is_open : w.closed ≡ false
  pub healthy : w.failed ≡ false

same_names : {a b i t : ℕ} → a ≡ i → b ≡ t → ◌≡◌ {A = FileName} (a, b) (i, t)
same_names {a} {b} {i} {t} e f = ap (λ (n : ℕ). (n, b)) e ∙ ap (λ (n : ℕ). (i, n)) f

pub read_all-IsSound :
    (c : Codec) (w : Wal) (rs : List WalRecord) → IsSound c w rs → read_all c w ≡ ok rs
unfolding read_all
read_all-IsSound c w rs h = ground (
  arith,
  h.is_open,
  h.same_dir,
  h.same_records,
  read_segments-HoldsAll c _ _
      (HoldsAll-append c h.early h.late h.front h.latest h.all_read h.last_read),
)

-- Another segment, of the same index and of a term that is no smaller.
pub create_new_segment-IsSound :
    (c : Codec) (w : Wal) (rs : List WalRecord) (term : ℕ)
    → IsSound c w rs
    → w.term ≤ term
    → IsSound c (create_new_segment w.index term w) rs
unfolding create_new_segment
create_new_segment-IsSound c w rs term h le =
    elim (order (h.latest.index) h.latest.term h.not_behind (omega (arith, h.same_term))) [
      | inl same ↦ record {
        front = h.front;
        latest = h.latest;
        early = h.early;
        late = h.late;
        same_dir =
            ap (λ (n : FileName). open_file n w.dir) (sym same)
            ∙ ap (open_file (name_of h.latest)) h.same_dir
            ∙ open_file-last h.front h.latest h.in_order;
        same_file = sym same;
        in_order = h.in_order;
        not_behind = h.not_behind;
        same_term = ap (λ (n : FileName). n.1) same;
        all_read = h.all_read;
        last_read = h.last_read;
        same_records = h.same_records;
        is_open = h.is_open;
        healthy = refl;
      }
      | inr later ↦
          let all =
            All-append (λ s. before (name_of s) (w.index, term) ≡ true) h.front (h.latest ∷ [])
              (AllBefore-trans (name_of h.latest) (w.index, term) h.front h.in_order later)
              (later, tt) in
          record {
            front = h.front ++ (h.latest ∷ []);
            latest = new_file (w.index, term);
            early = h.early ++ h.late;
            late = [];
            same_dir =
                ap (open_file (w.index, term)) h.same_dir
                ∙ open_file-later (w.index, term) (h.front ++ (h.latest ∷ [])) all;
            same_file = refl;
            in_order = all;
            not_behind = omega arith;
            same_term = refl;
            all_read = HoldsAll-append c h.early h.late h.front h.latest h.all_read h.last_read;
            last_read = refl;
            same_records = h.same_records ∙ sym (append-nil (h.early ++ h.late));
            is_open = h.is_open;
            healthy = refl;
          }
    ]
  where
    order :
        (i t : ℕ)
        → i ≤ w.index
        → t ≤ term
        → (◌≡◌ {A = FileName} (i, t) (w.index, term)) ⊎ (before (i, t) (w.index, term) ≡ true)
    order i t p q = elim (Bool-cases (before (i, t) (w.index, term))) [
      | inl y ↦ inr y
      | inr n ↦ inl (same_names (ground arith) (ground arith))
    ]

write_frame-IsSound :
    (c : Codec) (w : Wal) (rs : List WalRecord) (r : WalRecord) (bytes : Bytes)
    → IsSound c w rs
    → IsRecord c r bytes
    → IsSound c (write_frame works bytes w).0 (rs ++ (r ∷ []))
unfolding write_frame
write_frame-IsSound c w rs r bytes h good = record {
  front = h.front;
  latest = record (h.latest) { content = h.latest.content ++ frame bytes };
  early = h.early;
  late = h.late ++ (r ∷ []);
  same_dir =
      ap (λ (n : FileName). append_file n (frame bytes) w.dir) h.same_file
      ∙ ap (append_file (name_of h.latest) (frame bytes)) h.same_dir
      ∙ append_file-last h.front h.latest (frame bytes) h.in_order;
  same_file = h.same_file;
  in_order = h.in_order;
  not_behind = h.not_behind;
  same_term = h.same_term;
  all_read = h.all_read;
  last_read = Holds-append c h.late h.latest.content r bytes h.last_read good;
  same_records =
      ap (λ (x : List WalRecord). x ++ (r ∷ [])) h.same_records
      ∙ append_assoc h.early h.late (r ∷ []);
  is_open = h.is_open;
  healthy = h.healthy;
}

-- What an Append comes to where the disk works: the record at the next index with the command, behind
-- the others, or an error of json.Marshal and no change.
pub data Appended (c : Codec) (command : Command) (w : Wal) (rs : List WalRecord)
    (r : Wal × Result WalError (Unit {0})) : Type 0 where
  appended :
      (sealed : WalRecord)
      → r.1 ≡ ok tt
      → sealed.command ≡ command
      → sealed.index ≡ w.index + 1
      → r.0.index ≡ w.index + 1
      → IsSound c r.0 (rs ++ (sealed ∷ []))
      → Appended c command w rs r
  refused : (x : WalError) → r ≡ (w, err x) → Appended c command w rs r

-- How writing a record ends where the disk works: written, and the index as it was.
record Written (c : Codec) (w : Wal) (rs : List WalRecord) (r : WalRecord)
    (result : Wal × Result WalError (Unit {0})) : Type 0 where
  no_error : result.1 ≡ ok tt
  same_index : result.0.index ≡ w.index
  is_sound : IsSound c result.0 (rs ++ (r ∷ []))

write_record-Written :
    (c : Codec) (w : Wal) (rs : List WalRecord) (r : WalRecord) (bytes : Bytes)
    → IsSound c w rs
    → IsRecord c r bytes
    → Written c w rs r (write_record works bytes w)
unfolding write_record write_frame create_new_segment
write_record-Written c w rs r bytes h good =
    split_if (Written c w rs r) (ltb_ℤ w.max_size (pos (w.file_size + length bytes))) _ _
      (λ y.
        split_if (Written c w rs r) w.failed _ _ (λ f. absurd (ground (arith, h.healthy)))
          (λ f. record {
            no_error = refl;
            same_index = refl;
            is_sound =
                write_frame-IsSound c (create_new_segment w.index w.term w) rs r bytes
                  (create_new_segment-IsSound c w rs w.term h (omega arith)) good;
          }))
      (λ m.
        split_if (Written c w rs r) w.failed _ _ (λ f. absurd (ground (arith, h.healthy)))
          (λ f. record {
            no_error = refl;
            same_index = refl;
            is_sound = write_frame-IsSound c w rs r bytes h good;
          }))

advance-IsSound :
    (c : Codec) (w : Wal) (rs : List WalRecord) (index : ℕ)
    → IsSound c w rs
    → w.index ≤ index
    → IsSound c (record w { index = index }) rs
advance-IsSound c w rs index h le = record {
  front = h.front;
  latest = h.latest;
  early = h.early;
  late = h.late;
  same_dir = h.same_dir;
  same_file = h.same_file;
  in_order = h.in_order;
  not_behind = omega (arith, h.not_behind);
  same_term = h.same_term;
  all_read = h.all_read;
  last_read = h.last_read;
  same_records = h.same_records;
  is_open = h.is_open;
  healthy = h.healthy;
}

pub append-Appended :
    (c : Codec) (kept : Command → Type 0) (now : ℤ) (command : Command) (w : Wal)
    (rs : List WalRecord)
    → IsCodec c kept
    → kept command
    → w.index + 1 < 18446744073709551616
    → IsSound c w rs
    → Appended c command w rs (append c now works command w)
unfolding append
append-Appended c kept now command w rs codec k room h =
    split_if (Appended c command w rs) w.closed _ _ (λ y. absurd (ground (arith, h.is_open)))
      (λ n. elim (Result-cases (seal c made)) [
        | inr (x, e) ↦ subst (λ y. Appended c command w rs (after y)) (sym e) (refused x refl)
        | inl ((r, bytes), e) ↦
            subst (λ y. Appended c command w rs (after y)) (sym e)
              (let good = seal-IsSealed c kept made r bytes codec k e in
                finish r (write_record works bytes w) good.same_command good.same_index
                  (write_record-Written c w rs r bytes h good.is_record))
      ])
  where
    made : WalRecord
    made = record {
      index = u64 (w.index + 1);
      term = w.term;
      command = command;
      checksum = 0;
      timestamp = now;
    }

    last_step : Wal × Result WalError (Unit {0}) → Wal × Result WalError (Unit {0})
    last_step (m, result) = elim result [
      | err x ↦ (m, err x)
      | ok u ↦ (record m { index = u64 (m.index + 1) }, ok tt)
    ]

    after : Result WalError (WalRecord × Bytes) → Wal × Result WalError (Unit {0})
    after y = elim y [ err x ↦ (w, err x) | ok (r, bytes) ↦ last_step (write_record works bytes w) ]

    finish :
        (r : WalRecord) (p : Wal × Result WalError (Unit {0}))
        → r.command ≡ command
        → r.index ≡ made.index
        → Written c w rs r p
        → Appended c command w rs (last_step p)
    finish r (m, err x) a b written = absurd (cc (written.no_error))
    finish r (m, ok u) a b written =
        let same : u64 (m.index + 1) ≡ w.index + 1 = omega (arith, written.same_index) in
        appended r refl a (omega (arith, b)) same (
          advance-IsSound c m (rs ++ (r ∷ [])) _ written.is_sound
            (omega (arith, written.same_index)))
