-- ===== src/Watch/Delivery.antt =====
-- Which watches of internal/watch/watcher.go get an event.
use my_etcd.Base.{
  ℕ, zero, suc, ◌+◌, ◌≡◌, ◌≢◌, inl, inr, refl, sym, ap, subst, ◌∙◌, Bool, true, false, not, ◌&&◌,
  Option, none, some, List, [], ◌∷◌, ◌++◌, Bytes, bytes_eq, ◌==◌, if◌then◌else◌, arith,
  Option-cases, split_option, bytes_beq, bytes_beq_iff, eq_self,
}
use my_etcd.Base.Words.{ℤ, int_eq, int_beq_iff}
use my_etcd.Base.GoMap.{GoMap, lookup, insert, lookup-insert, Distinct}
use my_etcd.Watch.Watcher.{
  Watch, Watcher, WatchEvent, mapping_key, ids_at, is_empty, prefix_matches, prefix_ids,
  matching_ids, has_prefix, exact_tag,
}
use my_etcd.Watch.Sends.{offered, delivered}
use my_etcd.Watch.Routes.{times, due, IsRouted}

abbrev repeated : ℕ → WatchEvent → Watch → Watch
repeated zero event v = v
repeated (suc n) event v = repeated n event (offered event v)

abbrev pub on_watch : (Watch → Watch) → Option Watch → Option Watch
on_watch f found = elim found [ none ↦ none | some v ↦ some (f v) ]

meets :
    (event : WatchEvent) (v : Watch) (b : Bool) (found : Option Watch) (n : ℕ)
    → (b ≡ true → found ≡ some v)
    → on_watch (repeated n event) (if b then some (offered event v) else found)
      ≡ on_watch (repeated ((if b then 1 else 0) + n) event) found
meets event v true found n f =
    let once : suc n ≡ 1 + n = omega arith in
    ap (λ (k : ℕ). some (repeated k event v)) once
    ∙ ap (on_watch (repeated (1 + n) event)) (sym (f refl))
meets event v false found n f =
    let none_more : n ≡ 0 + n = omega arith in
    ap (λ (k : ℕ). on_watch (repeated k event) found) none_more

lookup-delivered :
    (id : ℤ) (event : WatchEvent) (ids : List ℤ) (m : GoMap ℤ Watch)
    → lookup id (delivered event ids m) ≡ on_watch (repeated (times id ids) event) (lookup id m)
lookup-delivered id event [] m = ground arith
lookup-delivered id event (i ∷ ids) m =
    let m' : GoMap ℤ Watch = elim (lookup i m) [
      | none ↦ m
      | some v ↦ insert i (offered event v) m
    ] in
    lookup-delivered id event ids m'
    ∙ split_option
        (λ (x : GoMap ℤ Watch).
          on_watch (repeated (times id ids) event) (lookup id x)
          ≡ on_watch (repeated (times id (i ∷ ids)) event) (lookup id m))
        (lookup i m) _ _ (λ n. ground (arith, n, int_beq_iff i id))
        (λ v there.
          ap (on_watch (repeated (times id ids) event)) (lookup-insert i id (offered event v) m)
          ∙ meets event v (i == id) (lookup id m) (times id ids)
              (λ same. ap (λ (j : ℤ). lookup j m) (sym ((int_beq_iff i id).0 same)) ∙ there))

times-append_lists : (id : ℤ) (xs ys : List ℤ) → times id (xs ++ ys) ≡ times id xs + times id ys
times-append_lists id [] ys = omega arith
times-append_lists id (x ∷ xs) ys = omega (arith, times-append_lists id xs ys)

-- Over all entries, an ID that stands once under the entry `own` and nowhere else.
times-prefix_ids :
    (id : ℤ) (own key : Bytes) (m : GoMap Bytes (List ℤ))
    → Distinct m
    → ((entry : Bytes) (ids : List ℤ)
        → lookup entry m ≡ some ids
        → times id ids ≡ (if own == entry then 1 else 0))
    → times id (prefix_ids key m)
      ≡ (elim (lookup own m) [ none ↦ 0 | some ids ↦ if prefix_matches own key then 1 else 0 ])
unfolding prefix_ids lookup
times-prefix_ids id own key [] u h = refl
times-prefix_ids id own key ((entry, ids) ∷ m) u h = grind (
  arith,
  times-prefix_ids id own key m u.1 (λ e is there. h e is (below e is there)),
  u.0,
  h entry ids (rw (eq_self entry) refl),
  times-append_lists id ids (prefix_ids key m),
  bytes_beq_iff entry own,
  bytes_beq_iff own entry,
)
  where
    below :
        (e : Bytes) (is : List ℤ)
        → lookup e m ≡ some is
        → (if entry == e then some ids else lookup e m) ≡ some is
    below e is there = grind (arith, u.0, there, bytes_beq_iff entry e)

times-prefix_ids_none :
    (id : ℤ) (key : Bytes) (m : GoMap Bytes (List ℤ))
    → Distinct m
    → ((entry : Bytes) (ids : List ℤ) → lookup entry m ≡ some ids → times id ids ≡ 0)
    → times id (prefix_ids key m) ≡ 0
unfolding prefix_ids lookup
times-prefix_ids_none id key [] u h = refl
times-prefix_ids_none id key ((entry, ids) ∷ m) u h = grind (
  arith,
  times-prefix_ids_none id key m u.1 (λ e is there. h e is (below e is there)),
  u.0,
  h entry ids (rw (eq_self entry) refl),
  times-append_lists id ids (prefix_ids key m),
)
  where
    below :
        (e : Bytes) (is : List ℤ)
        → lookup e m ≡ some is
        → (if entry == e then some ids else lookup e m) ≡ some is
    below e is there = grind (arith, u.0, there, bytes_beq_iff entry e)

-- What a watch asks for: its own key, or the keys that start with its prefix, which is not empty.
abbrev pub wants : Watch → Bytes → Bool
wants v key = if v.prefix then not (is_empty v.key) && has_prefix v.key key else v.key == key

exact_entry :
    (prefix : Bool) (p key : Bytes)
    → (mapping_key prefix p == (exact_tag ++ key)) ≡ (not prefix && (p == key))
unfolding mapping_key bytes_beq
exact_entry true p key = refl
exact_entry false p key = refl

prefix_entry :
    (prefix : Bool) (p key : Bytes)
    → prefix_matches (mapping_key prefix p) key ≡ (prefix && (not (is_empty p) && has_prefix p key))
unfolding mapping_key prefix_matches bytes_beq
prefix_entry true [] key = ground arith
prefix_entry true (c ∷ p) key = ground arith
prefix_entry false p key = ground arith

module _ (w : Watcher) (h : IsRouted w) where
  entry_times :
      (id : ℤ) (entry : Bytes) (ids : List ℤ)
      → lookup entry w.watchers ≡ some ids
      → times id ids ≡ due (lookup id w.watches) entry
  unfolding ids_at
  entry_times id entry ids there = grind (arith, h.routed id entry, there)

  own_entry_there :
      (id : ℤ) (v : Watch)
      → lookup id w.watches ≡ some v
      → lookup (mapping_key v.prefix v.key) w.watchers ≢ none
  unfolding ids_at
  own_entry_there id v there missing = absurd (
      grind (
        arith,
        h.routed id (mapping_key v.prefix v.key),
        there,
        missing,
        eq_self (mapping_key v.prefix v.key),
      ))

  by_prefix :
      (id : ℤ) (key : Bytes)
      → times id (prefix_ids key w.watchers) ≡ (elim (lookup id w.watches) [
        | none ↦ 0
        | some v ↦ if v.prefix && (not (is_empty v.key) && has_prefix v.key key) then 1 else 0
      ])
  by_prefix id key = elim (Option-cases (lookup id w.watches)) [
    | inl gone ↦
        times-prefix_ids_none id key w.watchers h.distinct (λ entry ids there.
          entry_times id entry ids there ∙ ap (λ (o : Option Watch). due o entry) gone)
        ∙ ground (arith, gone)
    | inr (v, there) ↦
        times-prefix_ids id (mapping_key v.prefix v.key) key w.watchers h.distinct
          (λ entry ids found.
            entry_times id entry ids found ∙ ap (λ (o : Option Watch). due o entry) there)
        ∙ ground (arith, there, own_entry_there id v there, prefix_entry v.prefix v.key key)
  ]

  times-matching_ids :
      (id : ℤ) (key : Bytes)
      → times id (matching_ids key w)
        ≡ (elim (lookup id w.watches) [ none ↦ 0 | some v ↦ if wants v key then 1 else 0 ])
  unfolding matching_ids
  times-matching_ids id key =
      times-append_lists id (ids_at (exact_tag ++ key) w.watchers) (prefix_ids key w.watchers)
      ∙ elim (Option-cases (lookup id w.watches)) [
        | inl gone ↦ ground (arith, by_prefix id key, h.routed id (exact_tag ++ key), gone)
        | inr (v, there) ↦ ground (
          arith,
          by_prefix id key,
          h.routed id (exact_tag ++ key),
          there,
          exact_entry v.prefix v.key key,
        )
      ]

  -- The sends put the event once into the buffer of each watch that asks for its key, by the key
  -- itself or by a prefix that is not empty, and change no other watch, where none of them panics.
  -- Each watch stands once under its own entry of `watchers` before.
  pub delivered_exact :
      (event : WatchEvent) (id : ℤ)
      → lookup id (delivered event (matching_ids event.key w) w.watches)
        ≡ (elim (lookup id w.watches) [
          | none ↦ none
          | some v ↦ some (if wants v event.key then offered event v else v)
        ])
  delivered_exact event id =
      lookup-delivered id event (matching_ids event.key w) w.watches
      ∙ elim (Option-cases (lookup id w.watches)) [
        | inl gone ↦ ground (arith, gone)
        | inr (v, there) ↦
            subst
              (λ (o : Option Watch).
                on_watch (repeated (times id (matching_ids event.key w)) event) o
                ≡ on_watch (λ x. if wants x event.key then offered event x else x) o)
              (sym there)
              (ap some (
                once v (wants v event.key) (times id (matching_ids event.key w))
                  (times-matching_ids id event.key ∙ ground (arith, there))))
      ]
    where
      once :
          (v : Watch) (b : Bool) (n : ℕ)
          → n ≡ (if b then 1 else 0)
          → repeated n event v ≡ (if b then offered event v else v)
      once v true n e = ap (λ (k : ℕ). repeated k event v) e
      once v false n e = ap (λ (k : ℕ). repeated k event v) e
