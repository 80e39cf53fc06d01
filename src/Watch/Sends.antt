-- ===== src/Watch/Sends.antt =====
-- The sends of distributeEvent in internal/watch/watcher.go: where they panic, and what they change.
use my_etcd.Base.{
  ◌≡◌, inl, inr, refl, sym, ap, ◌∙◌, Bool, false, Option, none, some, List, [], ◌∷◌, Bytes,
  bytes_eq, arith, Option-cases, split_option, split_if,
}
use my_etcd.Base.Words.{ℤ, int_eq}
use my_etcd.Base.GoMap.{GoMap, lookup, insert, delete, lookup-insert, lookup-delete}
use my_etcd.Watch.Watcher.{
  Watch, Watcher, WatchEvent, offer, matching_ids, deliver, distribute_event, watch, cancel,
  cleanup_watch, remove_from_mapping, mapping_key,
}

-- The watch with the event offered to its buffer.
abbrev pub offered : WatchEvent → Watch → Watch
offered event v = record v { buffer = offer 100 event v.buffer }

-- What the sends come to where none of them panics.
abbrev pub delivered : WatchEvent → List ℤ → GoMap ℤ Watch → GoMap ℤ Watch
delivered event [] m = m
delivered event (id ∷ ids) m =
    delivered event ids (elim (lookup id m) [ none ↦ m | some v ↦ insert id (offered event v) m ])

pub deliver-delivered :
    (event : WatchEvent) (ids : List ℤ) (m m' : GoMap ℤ Watch)
    → deliver event ids m ≡ some m'
    → m' ≡ delivered event ids m
unfolding deliver
deliver-delivered event [] m m' e = cc e
deliver-delivered event (id ∷ ids) m m' e = elim (Option-cases (lookup id m)) [
  | inl gone ↦ ground (arith, gone, e, deliver-delivered event ids m m')
  | inr (v, there) ↦
      ground (arith, there, e, deliver-delivered event ids (insert id (offered event v) m) m')
]

-- No watch of the map is closed.
abbrev pub AllOpen : GoMap ℤ Watch → Type 0
AllOpen m = (id : ℤ) (v : Watch) → lookup id m ≡ some v → v.closed ≡ false

pub insert-AllOpen :
    (id : ℤ) (v : Watch) (m : GoMap ℤ Watch)
    → v.closed ≡ false
    → AllOpen m
    → AllOpen (insert id v m)
insert-AllOpen id v m still h j u there =
    ground (arith, lookup-insert id j v m, there, still, h j u)

pub delete-AllOpen : (id : ℤ) (m : GoMap ℤ Watch) → AllOpen m → AllOpen (delete id m)
delete-AllOpen id m h j u there = ground (arith, lookup-delete id j m, there, h j u)

-- Where no watch is closed no send panics.
pub deliver-opened :
    (event : WatchEvent) (ids : List ℤ) (m : GoMap ℤ Watch)
    → AllOpen m
    → deliver event ids m ≡ some (delivered event ids m)
unfolding deliver
deliver-opened event [] m h = refl
deliver-opened event (id ∷ ids) m h = elim (Option-cases (lookup id m)) [
  | inl gone ↦ ground (arith, gone, deliver-opened event ids m h)
  | inr (v, there) ↦ ground (
    arith,
    there,
    h id v there,
    deliver-opened event ids (insert id (offered event v) m)
        (insert-AllOpen id (offered event v) m (h id v there) h),
  )
]

pub delivered-AllOpen :
    (event : WatchEvent) (ids : List ℤ) (m : GoMap ℤ Watch)
    → AllOpen m
    → AllOpen (delivered event ids m)
delivered-AllOpen event [] m h = h
delivered-AllOpen event (id ∷ ids) m h = delivered-AllOpen event ids _ (
    split_option AllOpen (lookup id m) _ _ (λ n. h)
      (λ v there. insert-AllOpen id (offered event v) m (h id v there) h))

-- The watches of an open watch manager are open.
abbrev pub IsOpen : Watcher → Type 0
IsOpen w = w.closed ≡ false → AllOpen w.watches

-- What distributeEvent comes to where it does not panic.
abbrev pub distributed : WatchEvent → Watcher → Watcher
distributed event w = record w { watches = delivered event (matching_ids event.key w) w.watches }

pub distribute_event-distributed :
    (event : WatchEvent) (w m : Watcher)
    → distribute_event event w ≡ some m
    → m ≡ distributed event w
unfolding distribute_event
distribute_event-distributed event w m =
    let ids = matching_ids event.key w in
    split_option (λ (o : Option Watcher). o ≡ some m → m ≡ distributed event w)
      (deliver event ids w.watches) _ _ (λ n e. absurd (cc e))
      (λ sent there e.
        let m_lem : record w { watches = sent } ≡ m = cc e in
        sym m_lem
        ∙ ap (λ (x : GoMap ℤ Watch). record w { watches = x })
            (deliver-delivered event ids w.watches sent there))

pub distribute_event-opened :
    (event : WatchEvent) (w : Watcher)
    → AllOpen w.watches
    → distribute_event event w ≡ some (distributed event w)
unfolding distribute_event
distribute_event-opened event w h =
    ground (arith, deliver-opened event (matching_ids event.key w) w.watches h)

pub watch-IsOpen :
    (now : ℤ) (key : Bytes) (prefix prev_kv : Bool) (w : Watcher)
    → IsOpen w
    → IsOpen (watch now key prefix prev_kv w).0
unfolding watch
watch-IsOpen now key prefix prev_kv w h =
    split_if (λ (r : Watcher × Option ℤ). IsOpen r.0) w.closed _ _ (λ c. h)
      (λ c still. insert-AllOpen w.next_watch_id _ w.watches refl (h still))

remove-IsOpen : (v : Watch) (w : Watcher) → IsOpen w → IsOpen (remove_from_mapping v w)
unfolding remove_from_mapping
remove-IsOpen v w h =
    split_option IsOpen (lookup (mapping_key v.prefix v.key) w.watchers) _ _ (λ n. h)
      (λ ids there. h)

without-IsOpen :
    (id : ℤ) (v : Watch) (w : Watcher)
    → IsOpen w
    → IsOpen (remove_from_mapping v (record w { watches = delete id w.watches }))
without-IsOpen id v w h =
    remove-IsOpen v (record w { watches = delete id w.watches })
      (λ still. delete-AllOpen id w.watches (h still))

pub cancel-IsOpen : (id : ℤ) (w : Watcher) → IsOpen w → IsOpen (cancel id w).0
unfolding cancel
cancel-IsOpen id w h =
    split_option (λ (r : Watcher × Bool). IsOpen r.0) (lookup id w.watches) _ _ (λ n. h)
      (λ v there. without-IsOpen id v w h)

pub cleanup_watch-IsOpen : (v : Watch) (w : Watcher) → IsOpen w → IsOpen (cleanup_watch v w)
unfolding cleanup_watch
cleanup_watch-IsOpen v w h =
    split_option IsOpen (lookup v.id w.watches) _ _ (λ n. h) (λ u there. without-IsOpen v.id v w h)

pub distributed-IsOpen :
    (event : WatchEvent) (w : Watcher) → IsOpen w → IsOpen (distributed event w)
distributed-IsOpen event w h =
    λ still. delivered-AllOpen event (matching_ids event.key w) w.watches (h still)
