-- ===== src/Lease/Terms.antt =====
-- How long a lease of internal/lease/lease.go lasts, and what revoking it takes away.
use my_etcd.Base.{
  ℕ, ◌-◌, ◌*◌, ◌<◌, ◌≤◌, ◌≡◌, ◌≢◌, ◌↔◌, refl, subst, true, none, some, Bytes, bytes_eq, arith,
  split_if, split_option, eq_self, Elem,
}
use my_etcd.Base.Words.{ℤ, pos, negsuc, ◌+ℤ◌, i64_pos, i64_wrap, int_eq, ◌<ℤ◌}
use my_etcd.Base.GoMap.{lookup, lookup-delete}
use my_etcd.Base.Result.{Result, ok}
use my_etcd.Lease.Manager.{
  Lease, LeaseManager, LeaseError, new_lease, seconds, drop_lease, revoke, after,
}
use my_etcd.Lease.Links.{IsLinked, delete_keys_lem, one_lease}

seconds_pos :
    (n : ℕ) → n * 1000000000 < 9223372036854775808 → seconds (pos n) ≡ pos (n * 1000000000)
unfolding seconds
seconds_pos n h = i64_pos (n * 1000000000) h

seconds_wrap :
    (n : ℕ)
    → 9223372036 < n
    → n ≤ 18446744073
    → seconds (pos n) ≡ negsuc (18446744073709551615 - n * 1000000000)
unfolding seconds
seconds_wrap n lo hi = i64_wrap (n * 1000000000) (omega arith) (omega arith)

-- A lease of `n` seconds, where `n` seconds fit an int64 of nanoseconds, is past its time exactly
-- when the clock is later than the grant by more than `n` seconds.
pub lease_lasts :
    (granted now id : ℤ) (n : ℕ)
    → n * 1000000000 < 9223372036854775808
    → (after now (new_lease granted id (pos n)).expires ≡ true)
      ↔ (granted +ℤ pos (n * 1000000000) <ℤ now)
unfolding after new_lease
lease_lasts granted now id n fits = rw (seconds_pos n fits) (λ h. ground arith, λ h. ground arith)

-- A TTL from 9223372037 seconds on overflows: up to 18446744073 seconds the lease is past its time
-- at the moment of its grant.
pub long_lease_is_past :
    (granted id : ℤ) (n : ℕ)
    → 9223372036 < n
    → n ≤ 18446744073
    → after granted (new_lease granted id (pos n)).expires ≡ true
unfolding after new_lease
long_lease_is_past granted id n lo hi = rw (seconds_wrap n lo hi) (ground arith)

-- Revoking a lease that is there takes it away, and with it every key that keyToLease maps to it, if
-- every mapped key is among its lease's Keys before.
pub revoke_unmaps :
    (id : ℤ) (lm : LeaseManager)
    → IsLinked lm
    → (revoke id lm).1 ≡ ok tt
    → (lookup id (revoke id lm).0.leases ≡ none)
      × ((key : Bytes) → lookup key (revoke id lm).0.key_to_lease ≢ some id)
unfolding revoke drop_lease
revoke_unmaps id lm h =
    split_if Unmapped lm.closed _ _ (λ c e. cc)
      (λ c.
        split_option Unmapped (lookup id lm.leases) _ _ (λ n e. cc)
          (λ lease at e. (
            rw (lookup-delete, eq_self id),
            λ key mapped.
                let d = delete_keys_lem lease.keys lm.key_to_lease key id mapped in
                let (l, there, inside) = h.held key id d.0 in
                d.1 (
                  subst (λ (x : Lease). Elem key x.keys)
                    (one_lease lm.leases id id lease l at there refl) inside),
          )))
  where
    Unmapped : LeaseManager × Result LeaseError (Unit {0}) → Type 0
    Unmapped r =
        r.1 ≡ ok tt
        → (lookup id r.0.leases ≡ none) × ((key : Bytes) → lookup key r.0.key_to_lease ≢ some id)
