-- ===== src/Lease/Examples.antt =====
-- The theorems on internal/lease/lease.go at work on a manager with a few leases.
use my_etcd.Base.{
  ◌*◌, ◌≡◌, ◌↔◌, refl, true, false, some, [], ◌∷◌, Bytes, codes, bytes_eq, bytes_beq, arith,
}
use my_etcd.Base.Words.{pos, ◌+ℤ◌, ◌<ℤ◌, int_eq, i64}
use my_etcd.Base.GoMap.{lookup, insert, Distinct}
use my_etcd.Base.Result.{ok}
use my_etcd.Lease.Manager.{
  Lease, LeaseManager, new_manager, new_lease, grant, attach, detach_other, revoke, after,
  is_revoked, get_expired_keys,
}
use my_etcd.Lease.Links.{HoldsKey, FreshId}
use my_etcd.Lease.Expiry.{Swept, gone_keys, get_expired_keys_exact}
use my_etcd.Lease.Terms.{lease_lasts, long_lease_is_past}
use my_etcd.Lease.History.{Reach, here, next, granted, attached, mapped_key_is_held}

abbrev key : Bytes
key = codes "k"

-- A grant of ten seconds, and a key attached to the lease.
abbrev with_lease : LeaseManager
with_lease = (grant (pos 0) (pos 10) new_manager).0

abbrev with_key : LeaseManager
with_key = (attach (pos 2) key with_lease).0

fresh : FreshId new_manager
unfolding new_manager lookup
fresh = refl

history : Reach new_manager with_key
history = next (next here (granted (pos 0) (pos 10) fresh refl)) (attached (pos 2) key refl)

mapped : lookup key with_key.key_to_lease ≡ some (pos 2)
unfolding new_manager grant attach lookup insert new_lease is_revoked i64 detach_other bytes_beq
mapped = refl

mapped_key_is_held_example : HoldsKey with_key.leases (pos 2) key
mapped_key_is_held_example = mapped_key_is_held key (pos 2) history mapped

lease_lasts_example :
    (after (pos 11000000000) (new_lease (pos 0) (pos 2) (pos 10)).expires ≡ true)
    ↔ (pos 0 +ℤ pos (10 * 1000000000) <ℤ pos 11000000000)
lease_lasts_example = lease_lasts (pos 0) (pos 11000000000) (pos 2) 10 (omega arith)

long_lease_is_past_example :
    after (pos 0) (new_lease (pos 0) (pos 2) (pos 10000000000)).expires ≡ true
long_lease_is_past_example =
    long_lease_is_past (pos 0) (pos 2) 10000000000 (omega arith) (omega arith)

-- Two leases, the first past its time at 50, the second not.
abbrev short_lease : Lease
short_lease = record { id = pos 2; ttl = pos 1; granted = pos 0; expires = pos 40; keys = key ∷ [] }

abbrev two_leases : LeaseManager
two_leases = record {
  leases =
      (pos 2, short_lease)
      ∷ (pos 3, record short_lease { id = pos 3; expires = pos 60; keys = [] })
      ∷ [];
  key_to_lease = (key, pos 2) ∷ [];
  next_lease_id = pos 3;
  revoked_leases = [];
  closed = false;
}

distinct : Distinct two_leases.leases
unfolding lookup
distinct = (refl, (refl, tt))

get_expired_keys_exact_example :
    Swept (pos 50) two_leases two_leases.leases (get_expired_keys (pos 50) two_leases).0.leases
    × ((get_expired_keys (pos 50) two_leases).1 ≡ gone_keys (pos 50) two_leases two_leases.leases)
get_expired_keys_exact_example = get_expired_keys_exact (pos 50) two_leases refl distinct

revoked_well : (revoke (pos 2) with_key).1 ≡ ok tt
unfolding new_manager grant attach revoke lookup insert new_lease is_revoked i64 detach_other
    bytes_beq
revoked_well = refl
