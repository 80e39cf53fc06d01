-- ===== src/Lease/Links.antt =====
-- The two directions of the bookkeeping in internal/lease/lease.go: keyToLease and a lease's Keys.
use my_etcd.Base.{
  ◌≡◌, ◌≢◌, inl, inr, refl, sym, ap, subst, ◌∙◌, Bool, true, false, not, none, some, List, [], ◌∷◌,
  ◌++◌, Bytes, ◌==◌, bytes_eq, arith, Bool-cases, bytes_beq_iff, split_if, split_option, Elem,
}
use my_etcd.Base.Words.{ℤ, pos, ◌+ℤ◌, i64, int_eq, int_beq_iff, ltb_ℤ}
use my_etcd.Base.GoMap.{GoMap, lookup, insert, delete, lookup-insert, lookup-delete, lookup-empty}
use my_etcd.Base.Result.{Result}
use my_etcd.Lease.Manager.{
  Lease, LeaseManager, LeaseError, grant, new_lease, revoke, keep_alive, attach, detach,
  detach_other, detach_from_lease, drop_lease, delete_keys, remove_first, is_revoked, close,
}

Elem-append : (key k : Bytes) (keys : List Bytes) → Elem key keys → Elem key (keys ++ (k ∷ []))
Elem-append key k (x ∷ keys) (inl e) = inl e
Elem-append key k (x ∷ keys) (inr h) = inr (Elem-append key k keys h)
Elem-append key k [] h = absurd h

Elem-append_last : (key : Bytes) (keys : List Bytes) → Elem key (keys ++ (key ∷ []))
Elem-append_last key [] = inl refl
Elem-append_last key (x ∷ keys) = inr (Elem-append_last key keys)

Elem-remove_first :
    (key k : Bytes) (keys : List Bytes) → k ≢ key → Elem key keys → Elem key (remove_first k keys)
unfolding remove_first
Elem-remove_first key k (x ∷ keys) ne (inl e) = elim (Bool-cases (x == k)) [
  | inl same ↦ absurd (ne (sym ((bytes_beq_iff x k).0 same) ∙ e))
  | inr other ↦ rw other (inl e)
]
Elem-remove_first key k (x ∷ keys) ne (inr h) = elim (Bool-cases (x == k)) [
  | inl same ↦ rw same h
  | inr other ↦ rw other (inr (Elem-remove_first key k keys ne h))
]
Elem-remove_first key k [] ne h = absurd h

-- The lease `id` is there, and lists the key.
abbrev pub HoldsKey : GoMap ℤ Lease → ℤ → Bytes → Type 0
HoldsKey leases id key = (lease : Lease) × (lookup id leases ≡ some lease) × Elem key lease.keys

-- Every key that keyToLease maps is in the Keys of a lease that is there.
pub record IsLinked (lm : LeaseManager) : Type 0 where
  pub held :
      (key : Bytes) (id : ℤ) → lookup key lm.key_to_lease ≡ some id → HoldsKey lm.leases id key

pub delete_keys_lem :
    (keys : List Bytes) (m : GoMap Bytes ℤ) (key : Bytes) (id : ℤ)
    → lookup key (delete_keys keys m) ≡ some id
    → (lookup key m ≡ some id) × (Elem key keys → ⊥)
unfolding delete_keys
delete_keys_lem [] m key id h = (h, λ e. e)
delete_keys_lem (k ∷ keys) m key id h =
    let ih = delete_keys_lem keys (delete k m) key id h in
    (
      ground (arith, ih.0, lookup-delete k key m),
      λ e. elim e [
        | inl same ↦ ground (arith, ih.0, lookup-delete k key m, bytes_beq_iff k key)
        | inr later ↦ ih.1 later
      ],
    )

-- An update of one lease keeps the others.
holds_insert :
    (leases : GoMap ℤ Lease) (id j : ℤ) (new : Lease) (key : Bytes)
    → HoldsKey leases j key
    → (id ≡ j → Elem key new.keys)
    → HoldsKey (insert id new leases) j key
holds_insert leases id j new key (lease, at, inside) keep = elim (Bool-cases (id == j)) [
  | inl same ↦ (new, rw (lookup-insert, same), keep ((int_beq_iff id j).0 same))
  | inr other ↦ (lease, rw (lookup-insert, other) at, inside)
]

pub one_lease :
    (leases : GoMap ℤ Lease) (id j : ℤ) (a b : Lease)
    → lookup id leases ≡ some a
    → lookup j leases ≡ some b
    → id ≡ j
    → b ≡ a
one_lease leases id j a b p q e = cc

pub drop_lease-IsLinked :
    (id : ℤ) (lease : Lease) (lm : LeaseManager)
    → lookup id lm.leases ≡ some lease
    → IsLinked lm
    → IsLinked (drop_lease id lease lm)
unfolding drop_lease
drop_lease-IsLinked id lease lm at h = record {
  held = λ key j e.
      let d = delete_keys_lem lease.keys lm.key_to_lease key j e in
      let (l, there, inside) = h.held key j d.0 in
      elim (Bool-cases (id == j)) [
        | inl same ↦ absurd (
            d.1 (
              subst (λ (x : Lease). Elem key x.keys)
                (one_lease lm.leases id j lease l at there ((int_beq_iff id j).0 same)) inside))
        | inr other ↦ (l, rw (lookup-delete, other) there, inside)
      ];
}

-- Grant takes a new ID that no lease has yet.
abbrev pub FreshId : LeaseManager → Type 0
FreshId lm = lookup (i64 (lm.next_lease_id +ℤ pos 1)) lm.leases ≡ none

abbrev LinkedAfter : {A : Type 0} → LeaseManager × A → Type 0
LinkedAfter r = IsLinked r.0

module _ (lm : LeaseManager) (h : IsLinked lm) where
  add_lease-IsLinked :
      (id : ℤ) (new : Lease)
      → lookup id lm.leases ≡ none
      → IsLinked (record lm { next_lease_id = id; leases = insert id new lm.leases })
  add_lease-IsLinked id new fresh = record {
    held = λ key j e.
        let (l, there, inside) = h.held key j e in
        holds_insert lm.leases id j new key (l, there, inside)
          (λ same. absurd (cc (fresh, there, same)));
  }

  pub grant-IsLinked : (now ttl : ℤ) → FreshId lm → IsLinked (grant now ttl lm).0
  unfolding grant
  grant-IsLinked now ttl fresh =
      let id = i64 (lm.next_lease_id +ℤ pos 1) in
      split_if LinkedAfter lm.closed _ _ (λ c. h)
        (λ c.
          split_if (LinkedAfter {A = Result LeaseError ℤ}) (not (ltb_ℤ (pos 0) ttl)) _ _ (λ n. h)
            (λ n. add_lease-IsLinked id (new_lease now id ttl) fresh))

  pub revoke-IsLinked : (id : ℤ) → IsLinked (revoke id lm).0
  unfolding revoke
  revoke-IsLinked id =
      split_if LinkedAfter lm.closed _ _ (λ c. h)
        (λ c.
          split_option LinkedAfter (lookup id lm.leases) _ _ (λ n. h)
            (λ lease at. drop_lease-IsLinked id lease lm at h))

  -- A lease given anew with all its keys.
  renew-IsLinked :
      (id : ℤ) (lease new : Lease)
      → lookup id lm.leases ≡ some lease
      → new.keys ≡ lease.keys
      → IsLinked (record lm { leases = insert id new lm.leases })
  renew-IsLinked id lease new at same = record {
    held = λ key j e.
        let (l, there, inside) = h.held key j e in
        holds_insert lm.leases id j new key (l, there, inside)
          (λ ij.
            subst (Elem key)
              (ap (λ (x : Lease). x.keys) (one_lease lm.leases id j lease l at there ij) ∙ sym same)
              inside);
  }

  pub keep_alive-IsLinked : (now id : ℤ) → IsLinked (keep_alive now id lm).0
  unfolding keep_alive
  keep_alive-IsLinked now id =
      split_if LinkedAfter lm.closed _ _ (λ c. h)
        (λ c.
          split_option LinkedAfter (lookup id lm.leases) _ _ (λ n. h)
            (λ lease at.
              split_if LinkedAfter (is_revoked id lm) _ _ (λ v. h)
                (λ v. renew-IsLinked id lease _ at refl)))

  detach_from_lease-IsLinked : (id : ℤ) (key : Bytes) → IsLinked (detach_from_lease id key lm).0
  unfolding detach_from_lease
  detach_from_lease-IsLinked id key =
      split_option LinkedAfter (lookup id lm.leases) _ _ (λ n. h)
        (λ lease at. record { held = λ k j e. on lease at k j e (key == k) refl })
    where
      on :
          (lease : Lease)
          → lookup id lm.leases ≡ some lease
          → (k : Bytes) (j : ℤ) → lookup k (delete key lm.key_to_lease) ≡ some j
          → (b : Bool) → (key == k) ≡ b
          → HoldsKey (insert id (record lease { keys = remove_first key lease.keys }) lm.leases) j k
      on lease at k j e true same = absurd (cc (rw (lookup-delete, same) at e))
      on lease at k j e false other =
          let old : lookup k lm.key_to_lease ≡ some j = rw (lookup-delete, other) at e in
          let (l, there, inside) = h.held k j old in
          holds_insert lm.leases id j _ k (l, there, inside)
            (λ ij.
              Elem-remove_first k key lease.keys
                (λ z. absurd (cc (other, (bytes_beq_iff key k).1 z)))
                (subst (λ (x : Lease). Elem k x.keys) (one_lease lm.leases id j lease l at there ij)
                  inside))

detach_other-IsLinked :
    (id : ℤ) (key : Bytes) (lm : LeaseManager) → IsLinked lm → IsLinked (detach_other id key lm)
unfolding detach_other
detach_other-IsLinked id key lm h =
    split_option IsLinked (lookup key lm.key_to_lease) _ _ (λ n. h)
      (λ old at.
        split_if IsLinked (old == id) _ _ (λ s. h) (λ o. detach_from_lease-IsLinked lm h old key))

-- Detaching from another lease leaves this one as it is.
lookup-detach_other :
    (id : ℤ) (key : Bytes) (lm : LeaseManager)
    → lookup id (detach_other id key lm).leases ≡ lookup id lm.leases
unfolding detach_other detach_from_lease
lookup-detach_other id key lm =
    split_option (λ (m : LeaseManager). lookup id m.leases ≡ lookup id lm.leases)
      (lookup key lm.key_to_lease) _ _ (λ n. refl)
      (λ old at.
        split_if (λ (m : LeaseManager). lookup id m.leases ≡ lookup id lm.leases) (old == id) _ _
          (λ s. refl)
          (λ o.
            split_option
              (λ (r : LeaseManager × Result LeaseError (Unit {0})).
                lookup id r.0.leases ≡ lookup id lm.leases)
              (lookup old lm.leases) _ _ (λ n. refl) (λ lease there. rw (lookup-insert, o))))

pub attach-IsLinked :
    (lm : LeaseManager) → IsLinked lm → (id : ℤ) (key : Bytes) → IsLinked (attach id key lm).0
unfolding attach
attach-IsLinked lm h id key =
    split_if LinkedAfter lm.closed _ _ (λ c. h)
      (λ c.
        split_option LinkedAfter (lookup id lm.leases) _ _ (λ n. h)
          (λ lease at.
            split_if LinkedAfter (is_revoked id lm) _ _ (λ v. h)
              (λ v. record { held = λ k j e. on lease at k j e (key == k) refl })))
  where
    m : LeaseManager
    m = detach_other id key lm

    hm : IsLinked m
    hm = detach_other-IsLinked id key lm h

    on :
        (lease : Lease)
        → lookup id lm.leases ≡ some lease
        → (k : Bytes) (j : ℤ) → lookup k (insert key id m.key_to_lease) ≡ some j
        → (b : Bool) → (key == k) ≡ b
        → HoldsKey (insert id (record lease { keys = lease.keys ++ (key ∷ []) }) m.leases) j k
    on lease at k j e true same =
        let ij : id ≡ j = ground (arith, rw (lookup-insert, same) at e) in
        (
          record lease { keys = lease.keys ++ (key ∷ []) },
          rw (lookup-insert, (int_beq_iff id j).1 ij),
          subst (λ (x : Bytes). Elem x (lease.keys ++ (key ∷ []))) ((bytes_beq_iff key k).0 same)
              (Elem-append_last key lease.keys),
        )
    on lease at k j e false other =
        let old : lookup k m.key_to_lease ≡ some j = rw (lookup-insert, other) at e in
        let (l, there, inside) = hm.held k j old in
        holds_insert m.leases id j _ k (l, there, inside)
          (λ ij. Elem-append k key lease.keys (
            subst (λ (x : Lease). Elem k x.keys)
              (one_lease m.leases id j lease l (lookup-detach_other id key lm ∙ at) there ij)
              inside))

pub detach-IsLinked : (lm : LeaseManager) → IsLinked lm → (key : Bytes) → IsLinked (detach key lm).0
unfolding detach
detach-IsLinked lm h key =
    split_if LinkedAfter lm.closed _ _ (λ c. h)
      (λ c.
        split_option LinkedAfter (lookup key lm.key_to_lease) _ _ (λ n. h)
          (λ id at. detach_from_lease-IsLinked lm h id key))

pub close-IsLinked : (lm : LeaseManager) → IsLinked lm → IsLinked (close lm)
unfolding close
close-IsLinked lm h =
    split_if IsLinked lm.closed _ _ (λ c. h)
      (λ c. record { held = λ key id e. absurd (cc (lookup-empty {V = ℤ} key, e)) })
