-- ===== src/Watch/Routes.antt =====
-- The agreement of the two maps of internal/watch/watcher.go: each watch stands once, under its own
-- entry of `watchers`, and nothing else stands there.
use my_etcd.Base.{
  ℕ, ◌+◌, ◌-◌, ◌≡◌, refl, sym, ap, ◌∙◌, Bool, true, Option, none, some, List, [], ◌∷◌, ◌++◌, Bytes,
  bytes_eq, ◌==◌, if◌then◌else◌, arith, split_if, split_option, bytes_beq_iff,
}
use my_etcd.Base.Words.{ℤ, int_eq, int_beq_iff}
use my_etcd.Base.GoMap.{
  GoMap, lookup, insert, delete, lookup-insert, lookup-delete, Distinct, insert-Distinct,
  delete-Distinct,
}
use my_etcd.Watch.Watcher.{
  Watch, Watcher, mapping_key, ids_at, watch, remove_id, remove_from_mapping, cancel, is_empty,
}

abbrev pub times : ℤ → List ℤ → ℕ
times id [] = 0
times id (i ∷ ids) = (if i == id then 1 else 0) + times id ids

-- How often an ID should stand under an entry, by its watch.
abbrev pub due : Option Watch → Bytes → ℕ
due found entry = elim found [
  | none ↦ 0
  | some v ↦ if mapping_key v.prefix v.key == entry then 1 else 0
]

pub record IsRouted (w : Watcher) : Type 0 where
  pub routed :
      (id : ℤ) (entry : Bytes)
      → times id (ids_at entry w.watchers) ≡ due (lookup id w.watches) entry
  pub named : (id : ℤ) (v : Watch) → lookup id w.watches ≡ some v → v.id ≡ id
  pub distinct : Distinct w.watchers

times-append :
    (id i : ℤ) (ids : List ℤ)
    → times id (ids ++ (i ∷ [])) ≡ times id ids + (if i == id then 1 else 0)
times-append id i [] = omega arith
times-append id i (j ∷ ids) = omega (arith, times-append id i ids)

times-remove_id :
    (id i : ℤ) (ids : List ℤ)
    → times id (remove_id i ids) ≡ times id ids - (if i == id then 1 else 0)
unfolding remove_id
times-remove_id id i [] = omega arith
times-remove_id id i (j ∷ ids) =
    grind (arith, times-remove_id id i ids, int_beq_iff j i, int_beq_iff j id, int_beq_iff i id)

ids_at-insert :
    (k entry : Bytes) (ids : List ℤ) (m : GoMap Bytes (List ℤ))
    → ids_at entry (insert k ids m) ≡ (if k == entry then ids else ids_at entry m)
unfolding ids_at
ids_at-insert k entry ids m = ground (arith, lookup-insert k entry ids m)

ids_at-delete :
    (k entry : Bytes) (m : GoMap Bytes (List ℤ))
    → ids_at entry (delete k m) ≡ (if k == entry then [] else ids_at entry m)
unfolding ids_at
ids_at-delete k entry m = ground (arith, lookup-delete k entry m)

-- The next ID is no watch's yet.
abbrev pub FreshId : Watcher → Type 0
FreshId w = lookup w.next_watch_id w.watches ≡ none

pub watch-IsRouted :
    (now : ℤ) (key : Bytes) (prefix prev_kv : Bool) (w : Watcher)
    → FreshId w
    → IsRouted w
    → IsRouted (watch now key prefix prev_kv w).0
unfolding watch
watch-IsRouted now key prefix prev_kv w fresh h =
    let k = mapping_key prefix key in
    let id = w.next_watch_id in
    split_if (λ (r : Watcher × Option ℤ). IsRouted r.0) w.closed _ _ (λ c. h)
      (λ c. record {
        routed = λ j entry.
            ap (times j) (ids_at-insert k entry (ids_at k w.watchers ++ (id ∷ [])) w.watchers)
            ∙ grind (
              arith,
              h.routed j entry,
              h.routed j k,
              times-append j id (ids_at k w.watchers),
              bytes_beq_iff k entry,
              int_beq_iff id j,
              fresh,
              lookup-insert id j _ w.watches,
            );
        named =
            λ j v e. grind (arith, h.named j v, int_beq_iff id j, lookup-insert id j _ w.watches);
        distinct = insert-Distinct k _ w.watchers h.distinct;
      })

watches-remove_from_mapping :
    (v : Watch) (w : Watcher) → (remove_from_mapping v w).watches ≡ w.watches
unfolding remove_from_mapping
watches-remove_from_mapping v w =
    split_option (λ (x : Watcher). x.watches ≡ w.watches)
      (lookup (mapping_key v.prefix v.key) w.watchers) _ _ (λ n. refl) (λ ids e. refl)

is_empty-nil : (ids : List ℤ) → is_empty ids ≡ true → ids ≡ []
is_empty-nil [] h = refl
is_empty-nil (i ∷ ids) h = absurd (cc h)

ids_at-remove_from_mapping :
    (v : Watch) (w : Watcher) (entry : Bytes)
    → ids_at entry (remove_from_mapping v w).watchers ≡ (
        if mapping_key v.prefix v.key == entry
        then remove_id v.id (ids_at entry w.watchers)
        else ids_at entry w.watchers)
unfolding remove_from_mapping ids_at remove_id
ids_at-remove_from_mapping v w entry =
    let k = mapping_key v.prefix v.key in
    split_option
      (λ (x : Watcher). ids_at entry x.watchers ≡ (
        if k == entry then remove_id v.id (ids_at entry w.watchers) else ids_at entry w.watchers))
      (lookup k w.watchers) _ _ (λ n. ground (arith, bytes_beq_iff k entry, n))
      (λ ids e.
        split_if
          (λ (m : GoMap Bytes (List ℤ)). ids_at entry m ≡ (
            if k == entry
            then remove_id v.id (ids_at entry w.watchers)
            else ids_at entry w.watchers))
          (is_empty (remove_id v.id ids)) _ _
          (λ y. ground (
            arith,
            bytes_beq_iff k entry,
            e,
            is_empty-nil (remove_id v.id ids) y,
            ids_at-delete k entry w.watchers,
          ))
          (λ n. ground (
            arith,
            bytes_beq_iff k entry,
            e,
            ids_at-insert k entry (remove_id v.id ids) w.watchers,
          )))

Distinct-remove_from_mapping :
    (v : Watch) (w : Watcher) → Distinct w.watchers → Distinct (remove_from_mapping v w).watchers
unfolding remove_from_mapping
Distinct-remove_from_mapping v w h =
    let k = mapping_key v.prefix v.key in
    split_option (λ (x : Watcher). Distinct x.watchers) (lookup k w.watchers) _ _ (λ n. h)
      (λ ids e.
        split_if (λ (m : GoMap Bytes (List ℤ)). Distinct m) (is_empty (remove_id v.id ids)) _ _
          (λ y. delete-Distinct k w.watchers h)
          (λ n. insert-Distinct k (remove_id v.id ids) w.watchers h))

-- Taking the watch of an ID away, with its entry.
abbrev pub without : ℤ → Watch → Watcher → Watcher
without id v w = remove_from_mapping v (record w { watches = delete id w.watches })

pub without-IsRouted :
    (id : ℤ) (v : Watch) (w : Watcher)
    → lookup id w.watches ≡ some v
    → IsRouted w
    → IsRouted (without id v w)
without-IsRouted id v w there h =
    let w' = record w { watches = delete id w.watches } in
    record {
      routed = λ j entry.
          ap (times j) (ids_at-remove_from_mapping v w' entry)
          ∙ removed j entry
          ∙ sym (
              ap (λ (m : GoMap ℤ Watch). due (lookup j m) entry)
                (watches-remove_from_mapping v w'));
      named = λ j u e.
          kept j u
            (sym (ap (λ (m : GoMap ℤ Watch). lookup j m) (watches-remove_from_mapping v w')) ∙ e);
      distinct = Distinct-remove_from_mapping v w' h.distinct;
    }
  where
    removed :
        (j : ℤ) (entry : Bytes)
        → times j (
            if mapping_key v.prefix v.key == entry
            then remove_id v.id (ids_at entry w.watchers)
            else ids_at entry w.watchers)
          ≡ due (lookup j (delete id w.watches)) entry
    removed j entry = grind (
      arith,
      h.routed j entry,
      h.named id v there,
      there,
      int_beq_iff id j,
      times-remove_id j v.id (ids_at entry w.watchers),
      lookup-delete id j w.watches,
    )

    kept : (j : ℤ) (u : Watch) → lookup j (delete id w.watches) ≡ some u → u.id ≡ j
    kept j u e = grind (arith, h.named j u, lookup-delete id j w.watches)

pub cancel-IsRouted : (id : ℤ) (w : Watcher) → IsRouted w → IsRouted (cancel id w).0
unfolding cancel
cancel-IsRouted id w h =
    split_option (λ (r : Watcher × Bool). IsRouted r.0) (lookup id w.watches) _ _ (λ n. h)
      (λ v there. without-IsRouted id v w there h)
