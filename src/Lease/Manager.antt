-- ===== src/Lease/Manager.antt =====
-- The lease manager of internal/lease/lease.go. Each method runs whole under lm.mu; the clock's
-- reading is an argument. The field Remaining of the stored lease, which nothing writes, is left out.
use my_etcd.Base.{
  ℕ, ◌+◌, Bool, true, false, not, ◌&&◌, none, some, List, [], ◌∷◌, ◌++◌, Bytes, ◌==◌, if◌then◌else◌,
  bytes_eq,
}
use my_etcd.Base.Words.{ℤ, pos, ◌+ℤ◌, ◌-ℤ◌, scale, ltb_ℤ, i64, int_eq}
use my_etcd.Base.GoMap.{GoMap, lookup, insert, delete}
use my_etcd.Base.Result.{Result, ok, err}

pub data LeaseError : Type 0 where
  manager_closed ttl_not_positive : LeaseError
  lease_not_found lease_revoked : ℤ → LeaseError
  key_not_attached : Bytes → LeaseError

-- Times are nanoseconds; IDs and TTLs are int64.
pub record Lease : Type 0 where
  pub id : ℤ
  pub ttl : ℤ
  pub granted : ℤ
  pub expires : ℤ
  pub keys : List Bytes

pub record LeaseManager : Type 0 where
  pub leases : GoMap ℤ Lease
  pub key_to_lease : GoMap Bytes ℤ
  pub next_lease_id : ℤ
  pub revoked_leases : GoMap ℤ (Unit {0})
  pub closed : Bool

-- types.Lease, what the queries return.
pub record LeaseInfo : Type 0 where
  pub id : ℤ
  pub ttl : ℤ
  pub remaining : ℤ
  pub granted : ℤ
  pub keys : List Bytes

-- NewLeaseManager
unfoldable pub new_manager : LeaseManager
new_manager = record {
  leases = [];
  key_to_lease = [];
  next_lease_id = pos 1;
  revoked_leases = [];
  closed = false;
}

-- time.Duration(ttl) * time.Second: an int64 product.
unfoldable pub seconds : ℤ → ℤ
seconds ttl = i64 (scale 1000000000 ttl)

-- now.After(t)
unfoldable pub after : ℤ → ℤ → Bool
after now t = ltb_ℤ t now

unfoldable pub is_revoked : ℤ → LeaseManager → Bool
is_revoked id lm = elim (lookup id lm.revoked_leases) [ none ↦ false | some u ↦ true ]

unfoldable pub new_lease : ℤ → ℤ → ℤ → Lease
new_lease now id ttl = record {
  id = id;
  ttl = ttl;
  granted = now;
  expires = now +ℤ seconds ttl;
  keys = [];
}

-- Grant
unfoldable pub grant : ℤ → ℤ → LeaseManager → LeaseManager × Result LeaseError ℤ
grant now ttl lm =
    let id = i64 (lm.next_lease_id +ℤ pos 1) in
    if lm.closed
    then (lm, err manager_closed)
    else if not (ltb_ℤ (pos 0) ttl)
    then (lm, err ttl_not_positive)
    else (
      record lm { next_lease_id = id; leases = insert id (new_lease now id ttl) lm.leases },
      ok id,
    )

-- The loops that delete a lease's keys from keyToLease.
unfoldable pub delete_keys : List Bytes → GoMap Bytes ℤ → GoMap Bytes ℤ
delete_keys [] m = m
delete_keys (key ∷ keys) m = delete_keys keys (delete key m)

-- Mark as revoked, delete the lease, clear the keys: Revoke, and each round of GetExpiredKeys.
unfoldable pub drop_lease : ℤ → Lease → LeaseManager → LeaseManager
drop_lease id lease lm = record lm {
  revoked_leases = insert id tt lm.revoked_leases;
  leases = delete id lm.leases;
  key_to_lease = delete_keys lease.keys lm.key_to_lease;
}

-- Revoke
unfoldable pub revoke : ℤ → LeaseManager → LeaseManager × Result LeaseError (Unit {0})
revoke id lm = if lm.closed then (lm, err manager_closed) else (elim (lookup id lm.leases) [
  | none ↦ (lm, err (lease_not_found id))
  | some lease ↦ (drop_lease id lease lm, ok tt)
])

-- KeepAlive
unfoldable pub keep_alive : ℤ → ℤ → LeaseManager → LeaseManager × Result LeaseError ℤ
keep_alive now id lm = if lm.closed then (lm, err manager_closed) else (elim (lookup id lm.leases) [
  | none ↦ (lm, err (lease_not_found id))
  | some lease ↦ if is_revoked id lm then (lm, err (lease_revoked id)) else (
    record lm {
      leases = insert id (record lease { expires = now +ℤ seconds lease.ttl }) lm.leases;
    },
    ok lease.ttl,
  )
])

-- The loop of detachFromLease: the first occurrence goes.
unfoldable pub remove_first : Bytes → List Bytes → List Bytes
remove_first key [] = []
remove_first key (k ∷ keys) =
    let rest = remove_first key keys in if k == key then keys else k ∷ rest

-- detachFromLease
unfoldable pub detach_from_lease :
    ℤ → Bytes → LeaseManager → LeaseManager × Result LeaseError (Unit {0})
detach_from_lease id key lm = elim (lookup id lm.leases) [
  | none ↦ (lm, err (lease_not_found id))
  | some lease ↦ (
    record lm {
      leases = insert id (record lease { keys = remove_first key lease.keys }) lm.leases;
      key_to_lease = delete key lm.key_to_lease;
    },
    ok tt,
  )
]

-- "If the key belongs to another lease, detach it first"; the result of that is ignored.
unfoldable pub detach_other : ℤ → Bytes → LeaseManager → LeaseManager
detach_other id key lm = elim (lookup key lm.key_to_lease) [
  | none ↦ lm
  | some old ↦ if old == id then lm else (detach_from_lease old key lm).0
]

-- Attach
unfoldable pub attach : ℤ → Bytes → LeaseManager → LeaseManager × Result LeaseError (Unit {0})
attach id key lm = if lm.closed then (lm, err manager_closed) else (elim (lookup id lm.leases) [
  | none ↦ (lm, err (lease_not_found id))
  | some lease ↦
      if is_revoked id lm
      then (lm, err (lease_revoked id))
      else (let m = detach_other id key lm in
          (
            record m {
              leases = insert id (record lease { keys = lease.keys ++ (key ∷ []) }) m.leases;
              key_to_lease = insert key id m.key_to_lease;
            },
            ok tt,
          ))
])

-- Detach
unfoldable pub detach : Bytes → LeaseManager → LeaseManager × Result LeaseError (Unit {0})
detach key lm = if lm.closed then (lm, err manager_closed) else (elim (lookup key lm.key_to_lease) [
  | none ↦ (lm, err (key_not_attached key))
  | some id ↦ detach_from_lease id key lm
])

-- int64(lease.Expires.Sub(now).Seconds()), no less than 0. `whole` is the truncated float.
unfoldable pub remaining_of : (ℤ → ℤ) → ℤ → Lease → ℤ
remaining_of whole now lease =
    let left = whole (lease.expires -ℤ now) in if ltb_ℤ left (pos 0) then pos 0 else left

-- getLeaseUnsafe
unfoldable pub get_lease_unsafe : (ℤ → ℤ) → ℤ → ℤ → LeaseManager → Result LeaseError LeaseInfo
get_lease_unsafe whole now id lm = elim (lookup id lm.leases) [
  | none ↦ err (lease_not_found id)
  | some lease ↦
      if is_revoked id lm
      then err (lease_revoked id)
      else ok (record {
        id = lease.id;
        ttl = lease.ttl;
        remaining = remaining_of whole now lease;
        granted = lease.granted;
        keys = lease.keys;
      })
]

-- GetLease, whose body repeats getLeaseUnsafe.
unfoldable pub get_lease : (ℤ → ℤ) → ℤ → ℤ → LeaseManager → Result LeaseError LeaseInfo
get_lease whole now id lm =
    if lm.closed then err manager_closed else get_lease_unsafe whole now id lm

-- GetLeaseByKey
unfoldable pub get_lease_by_key : (ℤ → ℤ) → ℤ → Bytes → LeaseManager → Result LeaseError LeaseInfo
get_lease_by_key whole now key lm =
    if lm.closed then err manager_closed else (elim (lookup key lm.key_to_lease) [
      | none ↦ err (key_not_attached key)
      | some id ↦ get_lease_unsafe whole now id lm
    ])

unfoldable pub list_from : (ℤ → ℤ) → ℤ → LeaseManager → GoMap ℤ Lease → List LeaseInfo
list_from whole now lm [] = []
list_from whole now lm ((id, lease) ∷ rest) =
    let infos = list_from whole now lm rest in
    if is_revoked id lm
    then infos
    else (elim (get_lease_unsafe whole now id lm) [ err e ↦ infos | ok info ↦ info ∷ infos ])

-- ListLeases
unfoldable pub list_leases : (ℤ → ℤ) → ℤ → LeaseManager → Result LeaseError (List LeaseInfo)
list_leases whole now lm =
    if lm.closed then err manager_closed else ok (list_from whole now lm lm.leases)

-- The loop of GetExpiredKeys, over the entries that the map had at its start.
unfoldable pub expire_from :
    ℤ → GoMap ℤ Lease → LeaseManager → List Bytes → LeaseManager × List Bytes
expire_from now [] lm expired = (lm, expired)
expire_from now ((id, lease) ∷ rest) lm expired =
    let gone = after now lease.expires && not (is_revoked id lm) in
    expire_from now rest (if gone then drop_lease id lease lm else lm)
      (if gone then expired ++ lease.keys else expired)

-- GetExpiredKeys
unfoldable pub get_expired_keys : ℤ → LeaseManager → LeaseManager × List Bytes
get_expired_keys now lm = if lm.closed then (lm, []) else expire_from now lm.leases lm []

-- Close
unfoldable pub close : LeaseManager → LeaseManager
close lm =
    if lm.closed
    then lm
    else record lm { closed = true; leases = []; key_to_lease = []; revoked_leases = [] }

unfoldable pub count_from : LeaseManager → GoMap ℤ Lease → ℕ → ℕ
count_from lm [] count = count
count_from lm ((id, lease) ∷ rest) count =
    count_from lm rest (if is_revoked id lm then count else count + 1)

-- GetLeaseCount
unfoldable pub get_lease_count : LeaseManager → ℕ
get_lease_count lm = if lm.closed then 0 else count_from lm lm.leases 0
