-- ===== src/Wal/Recovery.antt =====
-- The log of internal/wal/wal.go over its whole life: appends, changes of term, truncations and
-- restarts, and an Append that the disk cuts short.
use my_etcd.Base.{
  ℕ, ◌+◌, ◌≤◌, ◌<◌, ◌≡◌, ◌≢◌, refl, sym, ap, subst, ◌∙◌, false, List, [], ◌∷◌, ◌++◌, length, ◌==◌,
  nat_eq, arith, All, split_if,
}
use my_etcd.Base.Words.{ℤ}
use my_etcd.Base.Result.{Result, ok}
use my_etcd.Types.{Command}
use my_etcd.Wal.Frames.{Codec, WalRecord, WalError}
use my_etcd.Wal.Segments.{WalSegment, FileName, name_of, open_file, remove_above}
use my_etcd.Wal.Log.{
  Wal, works, create_new_segment, load_latest_segment, new_wal, append, truncate, set_term, sync,
}
use my_etcd.Wal.Files.{AllBefore, new_file, last_of-append}
use my_etcd.Wal.Soundness.{IsSound, create_new_segment-IsSound}

-- A log that was just started on no files.
pub new_wal-empty : (c : Codec) (max : ℤ) → IsSound c (new_wal max []) []
unfolding new_wal load_latest_segment create_new_segment open_file
new_wal-empty c max = record {
  front = [];
  latest = new_file (0, 0);
  early = [];
  late = [];
  same_dir = refl;
  same_file = refl;
  in_order = tt;
  not_behind = omega arith;
  same_term = refl;
  all_read = refl;
  last_read = refl;
  same_records = refl;
  is_open = refl;
  healthy = refl;
}

pub load_latest_segment-there :
    (w : Wal) (front : List WalSegment) (s : WalSegment)
    → w.dir ≡ front ++ (s ∷ [])
    → load_latest_segment w ≡ record w {
      file = name_of s;
      index = s.index;
      term = s.term;
      file_size = length s.content;
      failed = false;
    }
unfolding load_latest_segment
load_latest_segment-there w [] s e = rw e refl
load_latest_segment-there w (t ∷ front) s e = rw (e, last_of-append t s front) refl

-- A log that is opened on the files of a sound one.
load_latest_segment-IsSound :
    (c : Codec) (w v : Wal) (rs : List WalRecord)
    → IsSound c w rs
    → v.dir ≡ w.dir
    → v.closed ≡ false
    → IsSound c (load_latest_segment v) rs
load_latest_segment-IsSound c w v rs h same open_ =
    subst (λ (x : Wal). IsSound c x rs)
      (sym (load_latest_segment-there v h.front h.latest (same ∙ h.same_dir)))
      (record {
        front = h.front;
        latest = h.latest;
        early = h.early;
        late = h.late;
        same_dir = same ∙ h.same_dir;
        same_file = refl;
        in_order = h.in_order;
        not_behind = omega arith;
        same_term = refl;
        all_read = h.all_read;
        last_read = h.last_read;
        same_records = h.same_records;
        is_open = open_;
        healthy = refl;
      })

pub new_wal-IsSound :
    (c : Codec) (max : ℤ) (w : Wal) (rs : List WalRecord)
    → IsSound c w rs
    → IsSound c (new_wal max w.dir) rs
unfolding new_wal
new_wal-IsSound c max w rs h = load_latest_segment-IsSound c w _ rs h refl refl

remove_above-keeps :
    (index : ℕ) (dir : List WalSegment)
    → All (λ s. s.index ≤ index) dir
    → remove_above index dir ≡ dir
unfolding remove_above
remove_above-keeps index [] h = refl
remove_above-keeps index (s ∷ dir) h = ground (arith, h.0, remove_above-keeps index dir h.1)

low_indices :
    (name : FileName) (index : ℕ) (dir : List WalSegment) (s : WalSegment)
    → AllBefore name dir
    → name.0 ≤ index
    → s.index ≤ index
    → All (λ t. t.index ≤ index) (dir ++ (s ∷ []))
low_indices name index [] s h p q = (q, tt)
low_indices name index (t ∷ dir) s h p q =
    (ground (arith, h.0), low_indices name index dir s h.1 p q)

pub truncate-IsSound :
    (c : Codec) (index : ℕ) (w : Wal) (rs : List WalRecord)
    → IsSound c w rs
    → w.index ≤ index
    → IsSound c (truncate index w).0 rs
unfolding truncate
truncate-IsSound c index w rs h le =
    split_if (λ (r : Wal × Result WalError (Unit {0})). IsSound c r.0 rs) w.closed _ _ (λ y. h)
      (λ n.
        load_latest_segment-IsSound c w _ rs h
          (ap (remove_above index) h.same_dir
            ∙ remove_above-keeps index (h.front ++ (h.latest ∷ [])) (
                low_indices (name_of h.latest) index h.front h.latest h.in_order
                  (omega (arith, h.not_behind)) (omega (arith, h.not_behind)))
            ∙ sym h.same_dir)
          h.is_open)

pub set_term-IsSound :
    (c : Codec) (term : ℕ) (w : Wal) (rs : List WalRecord)
    → IsSound c w rs
    → w.term ≤ term
    → IsSound c (set_term term w).0 rs
unfolding set_term
set_term-IsSound c term w rs h le =
    split_if Kept w.closed _ _ (λ y. h)
      (λ n.
        split_if Kept (w.term == term) _ _ (λ y. h)
          (λ n.
            split_if Kept w.failed _ _ (λ y. h) (λ n. create_new_segment-IsSound c w rs term h le)))
  where
    Kept : Wal × Result WalError (Unit {0}) → Type 0
    Kept r = IsSound c r.0 rs

pub sync-same : (w : Wal) → (sync w).0 ≡ w
unfolding sync
sync-same w =
    split_if (λ (r : Wal × Result WalError (Unit {0})). r.0 ≡ w) w.closed _ _ (λ y. refl)
      (λ n.
        split_if (λ (r : Wal × Result WalError (Unit {0})). r.0 ≡ w) w.failed _ _ (λ y. refl)
          (λ n. refl))

-- The life of a log on a disk that works, with the commands that were appended: every command is of
-- the kind `kept`, no index passes 2^64, terms do not shrink, and a truncation is at the last index or
-- above.
pub data Reach (c : Codec) (kept : Command → Type 0) : Wal → List Command → Type 0 where
  started : (max : ℤ) → Reach c kept (new_wal max []) []
  one_appended :
      {w : Wal} {cmds : List Command} (now : ℤ) (command : Command)
      → Reach c kept w cmds
      → kept command
      → w.index + 1 < 18446744073709551616
      → (append c now works command w).1 ≡ ok tt
      → Reach c kept (append c now works command w).0 (cmds ++ (command ∷ []))
  not_appended :
      {w : Wal} {cmds : List Command} (now : ℤ) (command : Command)
      → Reach c kept w cmds
      → kept command
      → w.index + 1 < 18446744073709551616
      → (append c now works command w).1 ≢ ok tt
      → Reach c kept (append c now works command w).0 cmds
  term_set :
      {w : Wal} {cmds : List Command} (term : ℕ)
      → Reach c kept w cmds
      → w.term ≤ term
      → Reach c kept (set_term term w).0 cmds
  truncated :
      {w : Wal} {cmds : List Command} (index : ℕ)
      → Reach c kept w cmds
      → w.index ≤ index
      → Reach c kept (truncate index w).0 cmds
  synced : {w : Wal} {cmds : List Command} → Reach c kept w cmds → Reach c kept (sync w).0 cmds
  restarted :
      {w : Wal} {cmds : List Command} (max : ℤ)
      → Reach c kept w cmds
      → Reach c kept (new_wal max w.dir) cmds

abbrev pub commands : List WalRecord → List Command
commands [] = []
commands (r ∷ rs) = r.command ∷ commands rs

pub commands-append :
    (rs : List WalRecord) (r : WalRecord)
    → commands (rs ++ (r ∷ [])) ≡ commands rs ++ (r.command ∷ [])
commands-append [] r = refl
commands-append (s ∷ rs) r = ap (λ (x : List Command). s.command ∷ x) (commands-append rs r)
