-- ===== src/Watch/History.antt =====
-- Any sequence of calls and event loop rounds of the watch manager of internal/watch/watcher.go.
use my_etcd.Base.{
  ◌≡◌, refl, sym, ap, subst, ◌∙◌, Bool, true, false, Option, none, some, List, [], ◌∷◌, Bytes,
  bytes_eq, ◌==◌, if◌then◌else◌, arith, split_if, split_option,
}
use my_etcd.Base.Words.{ℤ, int_eq}
use my_etcd.Base.GoMap.{GoMap, lookup, Distinct}
use my_etcd.Watch.Watcher.{
  Watch, Watcher, WatchEvent, new_watcher, ids_at, watch, cancel, cleanup_watch, notify,
  distribute_event, event_loop_step, close_all, stop, mapping_key,
}
use my_etcd.Watch.Routes.{
  times, due, IsRouted, FreshId, watch-IsRouted, cancel-IsRouted, without-IsRouted,
}
use my_etcd.Watch.Delivery.{on_watch, wants, delivered_exact}
use my_etcd.Watch.Sends.{
  offered, IsOpen, distributed, distribute_event-distributed, distribute_event-opened, watch-IsOpen,
  cancel-IsOpen, cleanup_watch-IsOpen, distributed-IsOpen,
}

-- One call, or one round of the event loop. A new watch's ID is no watch's (the counter would have to
-- wrap otherwise), and the goroutine of a watch cleans up that watch. Stop closes the channels of the
-- watches and leaves the watches in the map: closing one of them again is a panic in Go, so Cancel and
-- the clean-up are steps of an open watch manager only. A round of the event loop, which may come
-- after Stop too, is one in which no send panics.
pub data Step (w m : Watcher) : Type 0 where
  watched :
      (now : ℤ) (key : Bytes) (prefix prev_kv : Bool)
      → FreshId w
      → m ≡ (watch now key prefix prev_kv w).0
      → Step w m
  cancelled : (id : ℤ) → w.closed ≡ false → m ≡ (cancel id w).0 → Step w m
  cleaned :
      (v : Watch)
      → lookup v.id w.watches ≡ some v
      → w.closed ≡ false
      → m ≡ cleanup_watch v w
      → Step w m
  notified : (event : WatchEvent) → m ≡ notify event w → Step w m
  looped : event_loop_step w ≡ some m → Step w m
  stopped : m ≡ stop w → Step w m

pub data Reach (w : Watcher) : Watcher → Type 0 where
  here : Reach w w
  next : {m k : Watcher} → Reach w m → Step m k → Reach w k

-- Watches that keep their IDs, keys and kinds stay where they are.
SameKeys : (Watch → Watch) → Type 0
SameKeys f =
    (v : Watch)
    → ((f v).id ≡ v.id) × (mapping_key (f v).prefix (f v).key ≡ mapping_key v.prefix v.key)

changed-IsRouted :
    (w m : Watcher) (f : Watch → Watch)
    → SameKeys f
    → m.watchers ≡ w.watchers
    → ((id : ℤ) → lookup id m.watches ≡ on_watch f (lookup id w.watches))
    → IsRouted w
    → IsRouted m
unfolding SameKeys
changed-IsRouted w m f same ids each h = record {
  routed = λ id entry.
      ap (λ (t : GoMap Bytes (List ℤ)). times id (ids_at entry t)) ids
      ∙ h.routed id entry
      ∙ sym
          (ap (λ (o : Option Watch). due o entry) (each id) ∙ due_same entry (lookup id w.watches));
  named = λ id v e. named_same id v (lookup id w.watches) (h.named id) (sym (each id) ∙ e);
  distinct = subst (λ (t : GoMap Bytes (List ℤ)). Distinct t) (sym ids) h.distinct;
}
  where
    due_same :
        (entry : Bytes) (found : Option Watch) → due (on_watch f found) entry ≡ due found entry
    due_same entry none = refl
    due_same entry (some v) = ap (λ (k : Bytes). if k == entry then 1 else 0) (same v).1

    named_same :
        (id : ℤ) (v : Watch) (found : Option Watch)
        → ((u : Watch) → found ≡ some u → u.id ≡ id)
        → on_watch f found ≡ some v
        → v.id ≡ id
    named_same id v none g e = absurd (cc e)
    named_same id v (some u) g e =
        let v_lem : f u ≡ v = cc e in sym (ap (λ (x : Watch). x.id) v_lem) ∙ (same u).0 ∙ g u refl

distributed-IsRouted :
    (event : WatchEvent) (w : Watcher) → IsRouted w → IsRouted (distributed event w)
distributed-IsRouted event w h =
    changed-IsRouted w (distributed event w) (λ v. if wants v event.key then offered event v else v)
      (unfold SameKeys in λ v. kept v (wants v event.key)) refl (delivered_exact w h event) h
  where
    kept :
        (v : Watch) (b : Bool)
        → ((if b then offered event v else v).id ≡ v.id)
          × (mapping_key
                (if b then offered event v else v).prefix
                (if b then offered event v else v).key
              ≡ mapping_key v.prefix v.key)
    kept v true = (refl, refl)
    kept v false = (refl, refl)

lookup-close_all :
    (id : ℤ) (m : GoMap ℤ Watch)
    → lookup id (close_all m) ≡ on_watch (λ v. record v { closed = true }) (lookup id m)
unfolding close_all lookup
lookup-close_all id [] = refl
lookup-close_all id ((i, v) ∷ m) = ground (arith, lookup-close_all id m)

stop-IsRouted : (w : Watcher) → IsRouted w → IsRouted (stop w)
unfolding stop
stop-IsRouted w h =
    split_if (λ (x : Watcher). IsRouted x) w.closed _ _ (λ c. h)
      (λ c.
        changed-IsRouted w (record w { closed = true; watches = close_all w.watches })
          (λ v. record v { closed = true }) (unfold SameKeys in λ v. (refl, refl)) refl
          (λ id. lookup-close_all id w.watches) h)

-- The queue of events has no part in it.
queued-IsRouted :
    (events : List WatchEvent) (w : Watcher)
    → IsRouted w
    → IsRouted (record w { event_chan = events })
queued-IsRouted events w h = record { routed = h.routed; named = h.named; distinct = h.distinct }

Step-IsRouted : {w m : Watcher} → Step w m → IsRouted w → IsRouted m
unfolding cleanup_watch notify event_loop_step
Step-IsRouted {w = w} (watched now key prefix prev_kv fresh e) h =
    subst IsRouted (sym e) (watch-IsRouted now key prefix prev_kv w fresh h)
Step-IsRouted {w = w} (cancelled id still e) h = subst IsRouted (sym e) (cancel-IsRouted id w h)
Step-IsRouted {w = w} (cleaned v there still e) h = subst IsRouted (sym e) (
    split_option IsRouted (lookup v.id w.watches) _ _ (λ n. h)
      (λ u found. without-IsRouted v.id v w there h))
Step-IsRouted {w = w} (notified event e) h =
    subst IsRouted (sym e) (split_if IsRouted w.closed _ _ (λ c. h) (λ c. queued-IsRouted _ w h))
Step-IsRouted {w = w} {m} (looped e) h = round w.event_chan e
  where
    round :
        (events : List WatchEvent)
        → ◌≡◌ {A = Option Watcher}
            (elim events [
              | [] ↦ some w
              | event ∷ rest ↦ distribute_event event (record w { event_chan = rest })
            ])
            (some m)
        → IsRouted m
    round [] e = let same : w ≡ m = cc e in subst IsRouted same h
    round (event ∷ rest) e =
        subst IsRouted (sym (distribute_event-distributed event _ m e))
          (distributed-IsRouted event _ (queued-IsRouted rest w h))
Step-IsRouted {w = w} (stopped e) h = subst IsRouted (sym e) (stop-IsRouted w h)

Reach-IsRouted : {w m : Watcher} → Reach w m → IsRouted w → IsRouted m
Reach-IsRouted here h = h
Reach-IsRouted (next r s) h = Step-IsRouted s (Reach-IsRouted r h)

from_new-IsRouted : {w : Watcher} → Reach new_watcher w → IsRouted w
unfolding new_watcher lookup ids_at
from_new-IsRouted r =
    Reach-IsRouted r
      (record { routed = λ id entry. refl; named = λ id v e. absurd (cc e); distinct = tt })

Step-IsOpen : {w m : Watcher} → Step w m → IsOpen w → IsOpen m
unfolding notify event_loop_step stop
Step-IsOpen {w} (watched now key prefix prev_kv fresh e) h =
    subst IsOpen (sym e) (watch-IsOpen now key prefix prev_kv w h)
Step-IsOpen {w} (cancelled id still e) h = subst IsOpen (sym e) (cancel-IsOpen id w h)
Step-IsOpen {w} (cleaned v there still e) h = subst IsOpen (sym e) (cleanup_watch-IsOpen v w h)
Step-IsOpen {w} (notified event e) h =
    subst IsOpen (sym e) (split_if IsOpen w.closed _ _ (λ c. h) (λ c. h))
Step-IsOpen {w} {m} (looped e) h = round w.event_chan e
  where
    round :
        (events : List WatchEvent)
        → ◌≡◌ {A = Option Watcher}
            (elim events [
              | [] ↦ some w
              | event ∷ rest ↦ distribute_event event (record w { event_chan = rest })
            ])
            (some m)
        → IsOpen m
    round [] e = let same : w ≡ m = cc e in subst IsOpen same h
    round (event ∷ rest) e =
        subst IsOpen (sym (distribute_event-distributed event _ m e))
          (distributed-IsOpen event (record w { event_chan = rest }) h)
Step-IsOpen {w} (stopped e) h =
    subst IsOpen (sym e) (split_if IsOpen w.closed _ _ (λ c. h) (λ c still. absurd (cc still)))

from_new-IsOpen : {w : Watcher} → Reach new_watcher w → IsOpen w
unfolding new_watcher lookup
from_new-IsOpen here = λ still id v there. absurd (cc there)
from_new-IsOpen (next r s) = Step-IsOpen s (from_new-IsOpen r)

-- After any sequence of calls and event loop rounds from a new watch manager (new watches with an ID
-- that no watch has; Cancel and clean-up before Stop; rounds in which no send panics) that has not been stopped, distributing
-- an event does not panic on a closed channel: it offers the event once to the buffer of each watch
-- that asks for its key, by the key itself or by a prefix that is not empty, and no other watch is
-- changed, added or lost.
pub event_reaches_wanting :
    {w : Watcher} (event : WatchEvent) (id : ℤ)
    → Reach new_watcher w
    → w.closed ≡ false
    → (m : Watcher) × (distribute_event event w ≡ some m)
      × (lookup id m.watches ≡ (elim (lookup id w.watches) [
        | none ↦ none
        | some v ↦ some (if wants v event.key then offered event v else v)
      ]))
event_reaches_wanting {w = w} event id r still = (
  distributed event w,
  distribute_event-opened event w (from_new-IsOpen r still),
  delivered_exact w (from_new-IsRouted r) event id,
)

-- After any sequence of calls and event loop rounds from a new watch manager (new watches with an ID
-- that no watch has; Cancel and clean-up before Stop; rounds in which no send panics), an ID stands under an entry of
-- `watchers` exactly once if it is a watch of that key and kind, and not at all otherwise.
pub watch_stands_once :
    {w : Watcher} (id : ℤ) (entry : Bytes)
    → Reach new_watcher w
    → times id (ids_at entry w.watchers) ≡ due (lookup id w.watches) entry
watch_stands_once id entry r = (from_new-IsRouted r).routed id entry
