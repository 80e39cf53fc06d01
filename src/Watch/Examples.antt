-- ===== src/Watch/Examples.antt =====
-- The theorems on internal/watch/watcher.go at work.
use my_etcd.Base.{◌≡◌, ◌≢◌, ◌↔◌, true, [], ◌++◌, Bytes, codes}
use my_etcd.Base.{none, some, if◌then◌else◌, refl, false}
use my_etcd.Base.Words.{pos, int_eq}
use my_etcd.Base.GoMap.{lookup}
use my_etcd.Watch.Watcher.{
  mapping_key, prefix_matches, Watcher, WatchEvent, watch_put, watch, new_watcher, distribute_event,
  ids_at,
}
use my_etcd.Watch.Routes.{times, due, FreshId}
use my_etcd.Watch.Delivery.{wants}
use my_etcd.Watch.Sends.{offered}
use my_etcd.Watch.History.{Reach, here, next, watched, event_reaches_wanting, watch_stands_once}
use my_etcd.Watch.Routing.{prefix_matches_iff}

prefix_matches_iff_example :
    (prefix_matches (mapping_key true (codes "a")) (codes "ab") ≡ true)
    ↔ ((true ≡ true) × (codes "a" ≢ []) × ((rest : Bytes) × (codes "ab" ≡ codes "a" ++ rest)))
prefix_matches_iff_example = prefix_matches_iff true (codes "a") (codes "ab")

-- A watch on the keys that start with a, and an event for one of them.
abbrev watching : Watcher
watching = (watch (pos 1) (codes "a") true false new_watcher).0

abbrev event : WatchEvent
event = record {
  kind = watch_put;
  key = codes "ab";
  value = codes "v";
  prev_value = [];
  version = pos 1;
  timestamp = pos 2;
}

fresh : FreshId new_watcher
unfolding new_watcher lookup
fresh = refl

history : Reach new_watcher watching
history = next here (watched (pos 1) (codes "a") true false fresh refl)

watching_still_open : watching.closed ≡ false
unfolding watch new_watcher
watching_still_open = refl

event_reaches_wanting_example :
    (m : Watcher) × (distribute_event event watching ≡ some m)
    × (lookup (pos 1) m.watches ≡ (elim (lookup (pos 1) watching.watches) [
      | none ↦ none
      | some v ↦ some (if wants v (codes "ab") then offered event v else v)
    ]))
event_reaches_wanting_example = event_reaches_wanting event (pos 1) history watching_still_open

watch_stands_once_example :
    times (pos 1) (ids_at (codes "prefix:a") watching.watchers)
    ≡ due (lookup (pos 1) watching.watches) (codes "prefix:a")
watch_stands_once_example = watch_stands_once (pos 1) (codes "prefix:a") history
