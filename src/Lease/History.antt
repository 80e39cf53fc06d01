-- ===== src/Lease/History.antt =====
-- Any sequence of calls of the lease manager of internal/lease/lease.go.
use my_etcd.Base.{◌≡◌, sym, subst, some, Bytes, bytes_eq}
use my_etcd.Base.Words.{ℤ, int_eq}
use my_etcd.Base.GoMap.{lookup, Distinct}
use my_etcd.Lease.Manager.{
  LeaseManager, new_manager, grant, revoke, keep_alive, attach, detach, get_expired_keys, close,
}
use my_etcd.Lease.Links.{
  IsLinked, HoldsKey, FreshId, grant-IsLinked, revoke-IsLinked, keep_alive-IsLinked,
  attach-IsLinked, detach-IsLinked, close-IsLinked,
}
use my_etcd.Lease.Expiry.{get_expired_keys-IsLinked}

-- One call that may change the manager. A grant's next ID is no lease's (the counter would have to
-- wrap otherwise), and an expiry round finds the IDs of the leases distinct, as in any Go map.
pub data Step (lm m : LeaseManager) : Type 0 where
  granted : (now ttl : ℤ) → FreshId lm → m ≡ (grant now ttl lm).0 → Step lm m
  revoked : (id : ℤ) → m ≡ (revoke id lm).0 → Step lm m
  kept_alive : (now id : ℤ) → m ≡ (keep_alive now id lm).0 → Step lm m
  attached : (id : ℤ) (key : Bytes) → m ≡ (attach id key lm).0 → Step lm m
  detached : (key : Bytes) → m ≡ (detach key lm).0 → Step lm m
  expired : (now : ℤ) → Distinct lm.leases → m ≡ (get_expired_keys now lm).0 → Step lm m
  closed : m ≡ close lm → Step lm m

pub data Reach (lm : LeaseManager) : LeaseManager → Type 0 where
  here : Reach lm lm
  next : {m k : LeaseManager} → Reach lm m → Step m k → Reach lm k

Step-IsLinked : {lm m : LeaseManager} → Step lm m → IsLinked lm → IsLinked m
Step-IsLinked {lm = lm} (granted now ttl fresh e) h =
    subst IsLinked (sym e) (grant-IsLinked lm h now ttl fresh)
Step-IsLinked {lm = lm} (revoked id e) h = subst IsLinked (sym e) (revoke-IsLinked lm h id)
Step-IsLinked {lm = lm} (kept_alive now id e) h =
    subst IsLinked (sym e) (keep_alive-IsLinked lm h now id)
Step-IsLinked {lm = lm} (attached id key e) h = subst IsLinked (sym e) (attach-IsLinked lm h id key)
Step-IsLinked {lm = lm} (detached key e) h = subst IsLinked (sym e) (detach-IsLinked lm h key)
Step-IsLinked {lm = lm} (expired now d e) h =
    subst IsLinked (sym e) (get_expired_keys-IsLinked now lm d h)
Step-IsLinked {lm = lm} (closed e) h = subst IsLinked (sym e) (close-IsLinked lm h)

Reach-IsLinked : {lm m : LeaseManager} → Reach lm m → IsLinked lm → IsLinked m
Reach-IsLinked here h = h
Reach-IsLinked (next r s) h = Step-IsLinked s (Reach-IsLinked r h)

pub from_new-IsLinked : {lm : LeaseManager} → Reach new_manager lm → IsLinked lm
unfolding new_manager lookup
from_new-IsLinked r = Reach-IsLinked r (record { held = λ k j n. absurd (cc n) })

-- From a new manager, after any sequence of calls (grant of an ID that no lease has, revoke,
-- keep-alive, attach, detach, expiry round over distinct lease IDs, close), whether they succeed or
-- not: a key that is mapped to a lease is mapped to one that is there and lists the key.
pub mapped_key_is_held :
    {lm : LeaseManager} (key : Bytes) (id : ℤ)
    → Reach new_manager lm
    → lookup key lm.key_to_lease ≡ some id
    → HoldsKey lm.leases id key
mapped_key_is_held key id r e = (from_new-IsLinked r).held key id e
