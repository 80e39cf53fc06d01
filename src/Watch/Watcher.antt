-- ===== src/Watch/Watcher.antt =====
-- The watch manager of internal/watch/watcher.go. Each method runs whole under w.mu; a Go channel is
-- its buffer with its capacity, and contexts are the closed flag. WatchEvent is shared with the
-- storage engine.
use my_etcd.Base.{
  ℕ, Bool, true, false, ◌&&◌, Option, none, some, List, [], ◌∷◌, ◌++◌, Bytes, codes, length, take,
  drop, ◌==◌, if◌then◌else◌, bytes_eq, ltb, leb,
}
use my_etcd.Base.Words.{ℤ, pos, ◌+ℤ◌, i64, int_eq}
use my_etcd.Base.GoMap.{GoMap, lookup, insert, delete}

pub data WatchEventType : Type 0 where
  watch_put watch_delete : WatchEventType

-- `value` and `prev_value` are []byte; nil reads as the empty list.
pub record WatchEvent : Type 0 where
  pub kind : WatchEventType
  pub key : Bytes
  pub value : Bytes
  pub prev_value : Bytes
  pub version : ℤ
  pub timestamp : ℤ

-- `buffer` is what the channel Chan holds and nobody has received yet.
pub record Watch : Type 0 where
  pub id : ℤ
  pub key : Bytes
  pub prefix : Bool
  pub prev_kv : Bool
  pub created : ℤ
  pub buffer : List WatchEvent
  pub closed : Bool

pub record Watcher : Type 0 where
  pub watches : GoMap ℤ Watch
  pub watchers : GoMap Bytes (List ℤ)
  pub next_watch_id : ℤ
  pub event_chan : List WatchEvent
  pub closed : Bool

abbrev pub prefix_tag : Bytes
prefix_tag = codes "prefix:"

abbrev pub exact_tag : Bytes
exact_tag = codes "exact:"

-- NewWatcher
unfoldable pub new_watcher : Watcher
new_watcher = record {
  watches = [];
  watchers = [];
  next_watch_id = pos 1;
  event_chan = [];
  closed = false;
}

-- The key of the `watchers` map: a tag by the kind of watch, and the watched key.
unfoldable pub mapping_key : Bool → Bytes → Bytes
mapping_key prefix key = if prefix then prefix_tag ++ key else exact_tag ++ key

-- w.watchers[k]: a missing key reads nil.
unfoldable pub ids_at : Bytes → GoMap Bytes (List ℤ) → List ℤ
ids_at k m = elim (lookup k m) [ none ↦ [] | some ids ↦ ids ]

-- Watch; the result is the new ID, or `none` for (0, nil).
unfoldable pub watch : ℤ → Bytes → Bool → Bool → Watcher → Watcher × Option ℤ
watch now key prefix prev_kv w =
    let id = w.next_watch_id in
    let k = mapping_key prefix key in
    if w.closed then (w, none) else (
      record w {
        next_watch_id = i64 (id +ℤ pos 1);
        watches =
            insert id
              (record {
                id = id;
                key = key;
                prefix = prefix;
                prev_kv = prev_kv;
                created = now;
                buffer = [];
                closed = false;
              })
              w.watches;
        watchers = insert k (ids_at k w.watchers ++ (id ∷ [])) w.watchers;
      },
      some id,
    )

unfoldable pub remove_id : ℤ → List ℤ → List ℤ
remove_id id [] = []
remove_id id (i ∷ ids) = let rest = remove_id id ids in if i == id then ids else i ∷ rest

abbrev pub is_empty {ℓ} : {A : Type ℓ} → List A → Bool
is_empty [] = true
is_empty (x ∷ xs) = false

-- removeFromMapping
unfoldable pub remove_from_mapping : Watch → Watcher → Watcher
remove_from_mapping v w =
    let k = mapping_key v.prefix v.key in
    elim (lookup k w.watchers) [
      | none ↦ w
      | some ids ↦ record w {
        watchers =
            if is_empty (remove_id v.id ids)
            then delete k w.watchers
            else insert k (remove_id v.id ids) w.watchers;
      }
    ]

-- Cancel; true where the watch was found. closeWatch ends the channel with the watch.
unfoldable pub cancel : ℤ → Watcher → Watcher × Bool
cancel id w = elim (lookup id w.watches) [
  | none ↦ (w, false)
  | some v ↦ (remove_from_mapping v (record w { watches = delete id w.watches }), true)
]

-- cleanupWatch, once the watch's context is done: what Cancel does, if the watch is there still.
unfoldable pub cleanup_watch : Watch → Watcher → Watcher
cleanup_watch v w = elim (lookup v.id w.watches) [
  | none ↦ w
  | some there ↦ remove_from_mapping v (record w { watches = delete v.id w.watches })
]

-- A send in a `select` with a default: dropped where the buffer of `cap` is full.
unfoldable pub offer : ℕ → WatchEvent → List WatchEvent → List WatchEvent
offer cap event buffer = if ltb (length buffer) cap then buffer ++ (event ∷ []) else buffer

-- Notify, onto the event channel of 1000.
unfoldable pub notify : WatchEvent → Watcher → Watcher
notify event w = if w.closed then w else record w { event_chan = offer 1000 event w.event_chan }

-- len(s) >= len(p) && s[:len(p)] == p
unfoldable pub has_prefix : Bytes → Bytes → Bool
has_prefix p s = leb (length p) (length s) && (take (length p) s == p)

-- The test of one entry of `watchers` in distributeEvent's loop over prefixes.
unfoldable pub prefix_matches : Bytes → Bytes → Bool
prefix_matches entry key =
    ltb 7 (length entry) && (take 7 entry == prefix_tag) && has_prefix (drop 7 entry) key

unfoldable pub prefix_ids : Bytes → GoMap Bytes (List ℤ) → List ℤ
prefix_ids key [] = []
prefix_ids key ((entry, ids) ∷ rest) =
    let more = prefix_ids key rest in if prefix_matches entry key then ids ++ more else more

-- The watch IDs that distributeEvent collects: exact ones first, then by prefix.
unfoldable pub matching_ids : Bytes → Watcher → List ℤ
matching_ids key w = ids_at (exact_tag ++ key) w.watchers ++ prefix_ids key w.watchers

-- The sends of distributeEvent, in the order of the IDs; `none` is the panic of a send on a channel
-- that closeWatch has closed.
unfoldable pub deliver : WatchEvent → List ℤ → GoMap ℤ Watch → Option (GoMap ℤ Watch)
deliver event [] m = some m
deliver event (id ∷ ids) m = elim (lookup id m) [
  | none ↦ deliver event ids m
  | some v ↦ elim v.closed [
    | true ↦ none
    | false ↦ deliver event ids (insert id (record v { buffer = offer 100 event v.buffer }) m)
  ]
]

-- distributeEvent; `none` where it panics.
unfoldable pub distribute_event : WatchEvent → Watcher → Option Watcher
distribute_event event w = elim (deliver event (matching_ids event.key w) w.watches) [
  | none ↦ none
  | some m ↦ some (record w { watches = m })
]

-- One round of eventLoop: the oldest event of the channel goes to the watches; `none` where that
-- panics.
unfoldable pub event_loop_step : Watcher → Option Watcher
event_loop_step w = elim w.event_chan [
  | [] ↦ some w
  | event ∷ rest ↦ distribute_event event (record w { event_chan = rest })
]

unfoldable pub close_all : GoMap ℤ Watch → GoMap ℤ Watch
close_all [] = []
close_all ((id, v) ∷ rest) = (id, record v { closed = true }) ∷ close_all rest

-- Stop
unfoldable pub stop : Watcher → Watcher
stop w = if w.closed then w else record w { closed = true; watches = close_all w.watches }

-- GetWatchCount
unfoldable pub get_watch_count : Watcher → ℕ
get_watch_count w = length w.watches
