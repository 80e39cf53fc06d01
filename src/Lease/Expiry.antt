-- ===== src/Lease/Expiry.antt =====
-- GetExpiredKeys of internal/lease/lease.go: which leases it ends, and which keys it returns.
use my_etcd.Base.{
  ◌≡◌, refl, sym, ap, ◌∙◌, Bool, true, false, not, ◌&&◌, Option, none, some, List, [], ◌∷◌, ◌++◌,
  Bytes, ◌==◌, if◌then◌else◌, bytes_eq, split_if, append_assoc, append-nil, eq_self, All,
}
use my_etcd.Base.Words.{ℤ, int_eq, int_beq_iff}
use my_etcd.Base.GoMap.{
  GoMap, lookup, lookup-insert, lookup-delete, Distinct, Current, Apart, none-Apart,
  Distinct-Current, Current-delete,
}
use my_etcd.Lease.Manager.{
  Lease, LeaseManager, drop_lease, is_revoked, expire_from, get_expired_keys, after,
}
use my_etcd.Lease.Links.{IsLinked, drop_lease-IsLinked}

-- The lease is past its time and not revoked.
abbrev pub is_gone : ℤ → LeaseManager → ℤ → Lease → Bool
is_gone now lm id lease = after now lease.expires && not (is_revoked id lm)

-- What the map holds at `id` once the leases that are gone are out.
abbrev pub live_lease : ℤ → LeaseManager → ℤ → Option Lease → Option Lease
live_lease now lm id found = elim found [
  | none ↦ none
  | some lease ↦ if is_gone now lm id lease then none else some lease
]

-- The keys of the entries that are gone, in order.
abbrev pub gone_keys : ℤ → LeaseManager → GoMap ℤ Lease → List Bytes
gone_keys now lm [] = []
gone_keys now lm ((id, lease) ∷ rest) =
    (if is_gone now lm id lease then lease.keys else []) ++ gone_keys now lm rest

-- A round for `id` changes neither test of another entry.
is_revoked-drop_lease :
    (id j : ℤ) (lease : Lease) (lm : LeaseManager)
    → (id == j) ≡ false
    → is_revoked j (drop_lease id lease lm) ≡ is_revoked j lm
unfolding is_revoked drop_lease
is_revoked-drop_lease id j lease lm h = rw (is_revoked, lookup-insert, h)

gone_keys-drop_lease :
    (now id : ℤ) (lease : Lease) (lm : LeaseManager) (rest : GoMap ℤ Lease)
    → Apart id rest
    → gone_keys now (drop_lease id lease lm) rest ≡ gone_keys now lm rest
gone_keys-drop_lease now id lease lm [] a = refl
gone_keys-drop_lease now id lease lm ((j, l) ∷ rest) a =
    rw (is_revoked-drop_lease id j lease lm a.0, gone_keys-drop_lease now id lease lm rest a.1)

expire_from_keys :
    (now : ℤ) (rest : GoMap ℤ Lease) (lm : LeaseManager) (expired : List Bytes)
    → Distinct rest
    → (expire_from now rest lm expired).1 ≡ expired ++ gone_keys now lm rest
unfolding expire_from
expire_from_keys now [] lm expired d = sym (append-nil expired)
expire_from_keys now ((id, lease) ∷ rest) lm expired d =
    elim (is_gone now lm id lease)
      as (λ b.
        (expire_from now rest (if b then drop_lease id lease lm else lm)
          (if b then expired ++ lease.keys else expired)).1
        ≡ expired ++ ((if b then lease.keys else []) ++ gone_keys now lm rest)) [
          | true ↦
              expire_from_keys now rest (drop_lease id lease lm) (expired ++ lease.keys) d.1
              ∙ ap (λ (ks : List Bytes). (expired ++ lease.keys) ++ ks)
                  (gone_keys-drop_lease now id lease lm rest (none-Apart id rest d.0))
              ∙ append_assoc expired lease.keys (gone_keys now lm rest)
          | false ↦ expire_from_keys now rest lm expired d.1
        ]

Current-drop_lease :
    (id : ℤ) (lease : Lease) (lm : LeaseManager) (rest : GoMap ℤ Lease)
    → Apart id rest
    → Current lm.leases rest
    → Current (drop_lease id lease lm).leases rest
unfolding drop_lease
Current-drop_lease id lease lm rest a c = Current-delete id lm.leases rest a c

expire_from-IsLinked :
    (now : ℤ) (rest : GoMap ℤ Lease) (lm : LeaseManager) (expired : List Bytes)
    → Distinct rest
    → Current lm.leases rest
    → IsLinked lm
    → IsLinked (expire_from now rest lm expired).0
unfolding expire_from
expire_from-IsLinked now [] lm expired d c h = h
expire_from-IsLinked now ((id, lease) ∷ rest) lm expired d c h =
    elim (is_gone now lm id lease)
      as (λ b.
        IsLinked
          (expire_from now rest (if b then drop_lease id lease lm else lm)
            (if b then expired ++ lease.keys else expired)).0) [
              | true ↦
                  expire_from-IsLinked now rest (drop_lease id lease lm) (expired ++ lease.keys) d.1
                    (Current-drop_lease id lease lm rest (none-Apart id rest d.0) c.1)
                    (drop_lease-IsLinked id lease lm c.0 h)
              | false ↦ expire_from-IsLinked now rest lm expired d.1 c.1 h
            ]

pub get_expired_keys-IsLinked :
    (now : ℤ) (lm : LeaseManager)
    → Distinct lm.leases
    → IsLinked lm
    → IsLinked (get_expired_keys now lm).0
unfolding get_expired_keys
get_expired_keys-IsLinked now lm d h =
    split_if (λ (r : LeaseManager × List Bytes). IsLinked r.0) lm.closed _ _ (λ c. h)
      (λ c. expire_from-IsLinked now lm.leases lm [] d (Distinct-Current lm.leases d) h)

lookup-drop_lease :
    (id j : ℤ) (lease : Lease) (lm : LeaseManager)
    → lookup j (drop_lease id lease lm).leases ≡ (if id == j then none else lookup j lm.leases)
unfolding drop_lease
lookup-drop_lease id j lease lm = lookup-delete id j lm.leases

-- A key that the part does not have is not touched.
lookup-expire_from :
    (now j : ℤ) (rest : GoMap ℤ Lease) (lm : LeaseManager) (expired : List Bytes)
    → Apart j rest
    → lookup j (expire_from now rest lm expired).0.leases ≡ lookup j lm.leases
unfolding expire_from
lookup-expire_from now j [] lm expired a = refl
lookup-expire_from now j ((id, lease) ∷ rest) lm expired a =
    elim (is_gone now lm id lease)
      as (λ b.
        lookup j
          (expire_from now rest (if b then drop_lease id lease lm else lm)
            (if b then expired ++ lease.keys else expired)).0.leases
        ≡ lookup j lm.leases) [
          | true ↦
              lookup-expire_from now j rest (drop_lease id lease lm) (expired ++ lease.keys) a.1
              ∙ lookup-drop_lease id j lease lm
              ∙ split_if (λ (o : Option Lease). o ≡ lookup j lm.leases) (id == j) _ _
                  (λ same.
                    absurd (cc (a.0, (int_beq_iff j id).1 (sym ((int_beq_iff id j).0 same)))))
                  (λ other. refl)
          | false ↦ lookup-expire_from now j rest lm expired a.1
        ]

-- The entries of `part` are out of the map `after` if they are gone, and else as they were.
abbrev pub Swept : ℤ → LeaseManager → GoMap ℤ Lease → GoMap ℤ Lease → Type 0
Swept now lm part left =
    All (λ kv. lookup kv.0 left ≡ (if is_gone now lm kv.0 kv.1 then none else some kv.1)) part

Swept-drop_lease :
    (now id : ℤ) (lease : Lease) (lm : LeaseManager) (part left : GoMap ℤ Lease)
    → Apart id part
    → Swept now (drop_lease id lease lm) part left
    → Swept now lm part left
Swept-drop_lease now id lease lm [] left a s = tt
Swept-drop_lease now id lease lm ((j, l) ∷ part) left a s = (
  rw (is_revoked-drop_lease id j lease lm a.0) at s.0,
  Swept-drop_lease now id lease lm part left a.1 s.1,
)

expire_from-Swept :
    (now : ℤ) (rest : GoMap ℤ Lease) (lm : LeaseManager) (expired : List Bytes)
    → Distinct rest
    → Current lm.leases rest
    → Swept now lm rest (expire_from now rest lm expired).0.leases
unfolding expire_from
expire_from-Swept now [] lm expired d c = tt
expire_from-Swept now ((id, lease) ∷ rest) lm expired d c =
    let apart = none-Apart id rest d.0 in
    elim (is_gone now lm id lease)
      as (λ b.
        (lookup id
            (expire_from now rest (if b then drop_lease id lease lm else lm)
              (if b then expired ++ lease.keys else expired)).0.leases
          ≡ (if b then none else some lease))
        × Swept now lm rest
            (expire_from now rest (if b then drop_lease id lease lm else lm)
              (if b then expired ++ lease.keys else expired)).0.leases) [
                | true ↦ (
                  lookup-expire_from now id rest (drop_lease id lease lm) (expired ++ lease.keys)
                        apart
                      ∙ lookup-drop_lease id id lease lm
                      ∙ rw (eq_self id),
                  Swept-drop_lease now id lease lm rest _ apart (
                      expire_from-Swept now rest (drop_lease id lease lm) (expired ++ lease.keys)
                        d.1 (Current-drop_lease id lease lm rest apart c.1)),
                )
                | false ↦ (
                  lookup-expire_from now id rest lm expired apart ∙ c.0,
                  expire_from-Swept now rest lm expired d.1 c.1,
                )
              ]

-- GetExpiredKeys on an open manager, whose lease IDs are distinct, ends exactly the leases that are
-- past their time and not revoked, leaves every other lease as it was, and returns exactly the keys
-- of those that it ends, lease by lease in the map's order.
pub get_expired_keys_exact :
    (now : ℤ) (lm : LeaseManager)
    → lm.closed ≡ false
    → Distinct lm.leases
    → Swept now lm lm.leases (get_expired_keys now lm).0.leases
      × ((get_expired_keys now lm).1 ≡ gone_keys now lm lm.leases)
unfolding get_expired_keys
get_expired_keys_exact now lm open_ d =
    split_if
      (λ (r : LeaseManager × List Bytes).
        Swept now lm lm.leases r.0.leases × (r.1 ≡ gone_keys now lm lm.leases))
      lm.closed _ _ (λ c. absurd (cc (open_, c)))
      (λ c. (
        expire_from-Swept now lm.leases lm [] d (Distinct-Current lm.leases d),
        expire_from_keys now lm.leases lm [] d,
      ))
